-- ===== src/Shaper/Clipboard.antt =====
-- The clipboard of Win32_Shaper/win32Project/utility.cpp, which holds one shape under the name "Shape".
-- The structure is read from the active window; the clipboard can be opened. The message box that setClipboard
-- ends with is left out: the messages that are handled until it is closed are events after the copy.
use ridingthecode.Common.{ℕ, zero, suc, [], ◌∷◌, ◌++◌, Option, none, some, if◌then◌else◌, length}
use ridingthecode.Common.Fault.{Fault, ok, fault, ◌>>=◌}
use ridingthecode.Shaper.State.{Shapes, DrawStr, ShapeCopy, Program, at}
use ridingthecode.Shaper.Menu.{invalidate}

-- The shape of a number, copied.
unfoldable pub copy_of : Shapes → ℕ → Fault ShapeCopy
copy_of s last = do
  mode ← at s.modes last
  type ← at s.types last
  shape ← at s.shapes last
  pen ← at s.pens last
  ok (record { mode = mode; type = type; pen = pen; shape = shape })

-- With no shape, `.at(-1)` throws.
unfoldable pub copy_last : Shapes → ℕ → Fault ShapeCopy
copy_last s zero = fault
copy_last s (suc last) = copy_of s last

unfoldable pub set_clipboard : Program → Fault Program
set_clipboard p = do
  c ← if p.is_active then copy_last p.dstr.shp (length p.dstr.shp.shapes) else fault
  ok (record p { clipboard = some c })

unfoldable pub push : ShapeCopy → Program → Program
push c p =
    let s = p.dstr.shp in
    let shp : Shapes = record {
      modes = s.modes ++ c.mode ∷ [];
      types = s.types ++ c.type ∷ [];
      pens = s.pens ++ c.pen ∷ [];
      shapes = s.shapes ++ c.shape ∷ [];
    } in
    let d : DrawStr = record p.dstr { shp = shp } in record p { dstr = d }

-- With no shape on the clipboard, the null pointer is followed.
unfoldable pub paste : Option ShapeCopy → Program → Fault Program
paste none p = fault
paste (some c) p = ok (invalidate (push c p))

unfoldable pub get_clipboard : Program → Fault Program
get_clipboard p = if p.is_active then paste p.clipboard p else fault
