-- ===== src/Shaper/Outcomes.antt =====
-- When a command of the drawing program fails, and what an event makes of the list of shapes.
use ridingthecode.Common.{
  ℕ, ◌<◌, Bool, true, false, not, List, [], ◌∷◌, ◌++◌, ◌==◌, ◌&&◌, ◌||◌, if◌then◌else◌, Option,
  none, some, ◌≡◌, refl, sym, ◌∙◌, Bool-cases, inl, inr, subst, ==→eq,
}
use ridingthecode.Common.Fault.{Fault, ok, fault, ◌>>=◌, ok->>=, fault->>=}
use ridingthecode.Shaper.Ids
use ridingthecode.Shaper.State.{ShapeCopy, Gdi, Program}
use ridingthecode.Shaper.Menu.{
  invalidate, check_mode, check_pen, check_bg, check_shape, change_main,
}
use ridingthecode.Shaper.Menu.Cases.{change_main-cases}
use ridingthecode.Shaper.Drawing.{draws}
use ridingthecode.Shaper.Clipboard.{set_clipboard, push, paste, get_clipboard}
use ridingthecode.Shaper.Window.{Message, Event, top_menu}
use ridingthecode.Shaper.Canvas.{InRange, AllInRange}
use ridingthecode.Shaper.Refinement.{
  Shows, drawn, last_of, draws-Shows, push-Shows, set_clipboard-last, OnSome,
}
use ridingthecode.Shaper.Selecting.{frame, mini_party-ok}

-- A faultless result, of which something holds.
abbrev pub Returns : Fault Program → List ShapeCopy → Type 0
Returns m cs = (q : Program) × (m ≡ ok q) × Shows q cs

-- When ID_COPY and ID_PASTE fail, and when a paint does.
is_empty : List ShapeCopy → Bool
is_empty [] = true
is_empty (c ∷ cs) = false

no_shape : Option ShapeCopy → Bool
no_shape none = true
no_shape (some c) = false

pub command_fails : ℕ → Bool → Option ShapeCopy → List ShapeCopy → Bool
unfolding no_shape is_empty
command_fails id is_active clipboard cs =
    if id == Ids.id_copy
    then not is_active || is_empty cs
    else if id == Ids.id_paste
    then not is_active || no_shape clipboard
    else false

unfoldable pub fails : Event → Program → List ShapeCopy → Bool
unfolding command_fails
fails (Event.main_window Message.paint) p cs = not p.draw_shape && not p.is_active
fails (Event.main_window (Message.command id _)) p cs = command_fails id p.is_active p.clipboard cs
fails _ p cs = false

-- What becomes of the list.
pub pasted : Option ShapeCopy → List ShapeCopy → List ShapeCopy
pasted none cs = cs
pasted (some c) cs = cs ++ c ∷ []

unfoldable pub canvas : Event → Program → List ShapeCopy → List ShapeCopy
unfolding pasted
canvas (Event.main_window Message.erasebkgnd) p cs =
    if p.dstr.current_bg == p.dstr.last_bg then cs else []
canvas (Event.main_window (Message.command id _)) p cs =
    if id == Ids.id_paste then pasted p.clipboard cs else cs
canvas (Event.main_window Message.lbuttonup) p cs = if p.draw_shape then cs ++ drawn p ∷ [] else cs
canvas (Event.press id) p cs = if id == Ids.idc_erase then [] else cs
canvas _ p cs = cs

-- What is known of the world outside: rand gives at most RAND_MAX, and another instance of the
-- program copies a shape that can be drawn.
abbrev pub IsPlausible : Event → Type 0
IsPlausible (Event.main_window (Message.command _ rand)) = (k : ℕ) → rand k < 32768
IsPlausible (Event.other_copies c) = InRange c
IsPlausible _ = Unit {0}

abbrev pub Outcome : Bool → Fault Program → List ShapeCopy → Type 0
Outcome true m cs = m ≡ fault
Outcome false m cs = Returns m cs

pub returns :
    {p : Program} {cs : List ShapeCopy} (q : Program)
    → Shows p cs
    → q.dstr ≡ p.dstr
    → q.clipboard ≡ p.clipboard
    → Returns (ok q) cs
returns q s d c = (q, refl, frame q s d c)

pub Outcome-map :
    (b : Bool) (m : Fault Program) (f : Program → Program) {cs : List ShapeCopy}
    → Outcome b m cs
    → ((q : Program) → Shows q cs → Shows (f q) cs)
    → Outcome b (m >>= (λ q. ok (f q))) cs
Outcome-map true m f h k = fault->>= _ h
Outcome-map false m f (q, e, s) k = (f q, ok->>= _ e, k q s)

last_of-InRange :
    (c : ShapeCopy) (cs : List ShapeCopy)
    → AllInRange (c ∷ cs)
    → (d : ShapeCopy) × (last_of (c ∷ cs) ≡ ok d) × InRange d
unfolding last_of
last_of-InRange c [] r = (c, refl, r.0)
last_of-InRange c (d ∷ ds) r = last_of-InRange d ds r.1

set_clipboard-Outcome :
    {p : Program} (cs : List ShapeCopy) (b : Bool)
    → p.is_active ≡ b
    → Shows p cs
    → Outcome (not b || is_empty cs) (set_clipboard p) cs
unfolding last_of is_empty
set_clipboard-Outcome cs false a s = set_clipboard-last s ∙ rw a refl
set_clipboard-Outcome [] true a s = set_clipboard-last s ∙ rw a refl
set_clipboard-Outcome {p} (c ∷ cs) true a s =
    let (d, e, r) = last_of-InRange c cs s.in_range in
    (
      record p { clipboard = some d },
      set_clipboard-last s ∙ rw a (rw e refl),
      record {
        is_columns = s.is_columns;
        in_range = s.in_range;
        pen = s.pen;
        bg = s.bg;
        shape = s.shape;
        mode = s.mode;
        copied = r;
      },
    )

get_clipboard-Outcome :
    {p : Program} {cs : List ShapeCopy} (b : Bool) (o : Option ShapeCopy)
    → p.is_active ≡ b
    → p.clipboard ≡ o
    → Shows p cs
    → Outcome (not b || no_shape o) (get_clipboard p) (pasted o cs)
unfolding get_clipboard no_shape pasted paste
get_clipboard-Outcome false o a c s = rw a refl
get_clipboard-Outcome true none a c s = rw (a, c) refl
get_clipboard-Outcome {p} true (some c) a e s = (
  invalidate (push c p),
  rw (a, e) refl,
  frame _ (push-Shows s c (subst OnSome e s.copied)) refl refl,
)

-- Calls that are drawn change nothing else.
pub Returns-calls :
    {p : Program} {cs : List ShapeCopy} {m : Fault (List Gdi)}
    → (calls : List Gdi) × (m ≡ ok calls)
    → Shows p cs
    → Returns (m >>= (λ calls. ok (draws p calls))) cs
Returns-calls (calls, e) s = (_, ok->>= _ e, draws-Shows s calls)

pub top_menu-Outcome :
    (id : ℕ) (rand : ℕ → ℕ) {p : Program} {cs : List ShapeCopy}
    → ((k : ℕ) → rand k < 32768)
    → Shows p cs
    → Outcome
        (command_fails id p.is_active p.clipboard cs)
        (top_menu id rand p)
        (if id == Ids.id_paste then pasted p.clipboard cs else cs)
unfolding top_menu command_fails
top_menu-Outcome id rand {p} {cs} r s =
    let AtId : ℕ → Type 0 = λ i.
      Outcome (command_fails i p.is_active p.clipboard cs) (top_menu i rand p)
        (if i == Ids.id_paste then pasted p.clipboard cs else cs) in
    elim (Bool-cases (id == Ids.id_mini_party)) [
      | inl e ↦ subst AtId (sym (==→eq _ _ e)) (Returns-calls (mini_party-ok rand r s) s)
      | inr e₁ ↦ elim (Bool-cases (id == Ids.id_copy)) [
        | inl e ↦ subst AtId (sym (==→eq _ _ e)) (set_clipboard-Outcome cs p.is_active refl s)
        | inr e₂ ↦ elim (Bool-cases (id == Ids.id_paste)) [
          | inl e ↦
              subst AtId (sym (==→eq _ _ e))
                (get_clipboard-Outcome p.is_active p.clipboard refl refl s)
          | inr e₃ ↦ rw (e₁, e₂, e₃) (p, refl, s)
        ]
      ]
    ]

pub change_main-same :
    (p : Program) (id : ℕ)
    → ((change_main id p).0.is_active ≡ p.is_active)
      × ((change_main id p).0.clipboard ≡ p.clipboard)
unfolding check_mode check_pen check_bg check_shape
change_main-same p id =
    change_main-cases (λ q. (q.is_active ≡ p.is_active) × (q.clipboard ≡ p.clipboard)) p id
      (λ _ _. (refl, refl)) (λ _ _. (refl, refl)) (λ _ _. (refl, refl)) (λ _ _. (refl, refl))
      (refl, refl) (refl, refl)
