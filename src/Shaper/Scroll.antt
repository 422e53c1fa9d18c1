-- ===== src/Shaper/Scroll.antt =====
-- The scroll bars: vScrollBar, hScrollBar and wmSize of Win32_Shaper/win32Project/utility.cpp.
use ridingthecode.Common.{ℕ, true, ◌==◌, if◌then◌else◌}
use ridingthecode.Common.Int.{ℤ, pos, ◌+ℤ◌, ◌-ℤ◌, eq_ℤ}
use ridingthecode.Shaper.State.{ScrollInfo, Program}

-- The codes of a scroll message, of winuser.h: left is up, and right is down.
abbrev sb_lineup : ℕ
sb_lineup = 0

abbrev sb_linedown : ℕ
sb_linedown = 1

abbrev sb_pageup : ℕ
sb_pageup = 2

abbrev sb_pagedown : ℕ
sb_pagedown = 3

abbrev sb_thumbtrack : ℕ
sb_thumbtrack = 5

abbrev sb_top : ℕ
sb_top = 6

abbrev sb_bottom : ℕ
sb_bottom = 7

-- The position that a message asks for. The last argument is where the user drags the box to.
unfoldable pub v_wanted : ScrollInfo → ℕ → ℤ → ℤ
v_wanted si code track =
    if code == sb_top
    then si.n_min
    else if code == sb_bottom
    then si.n_max
    else if code == sb_lineup
    then si.n_pos -ℤ pos 1
    else if code == sb_linedown
    then si.n_pos +ℤ pos 1
    else if code == sb_pageup
    then si.n_pos -ℤ si.n_page
    else if code == sb_pagedown
    then si.n_pos +ℤ si.n_page
    else if code == sb_thumbtrack
    then track
    else si.n_pos

unfoldable pub h_wanted : ScrollInfo → ℕ → ℤ → ℤ
h_wanted si code track =
    if code == sb_lineup
    then si.n_pos -ℤ pos 1
    else if code == sb_linedown
    then si.n_pos +ℤ pos 1
    else if code == sb_pageup
    then si.n_pos -ℤ si.n_page
    else if code == sb_pagedown
    then si.n_pos +ℤ si.n_page
    else if code == sb_thumbtrack
    then track
    else si.n_pos

-- `place si p` is the position that SetScrollInfo gives a bar when it is asked for `p`.
module _ (place : ScrollInfo → ℤ → ℤ) where
  -- The second result is what WndProc stores.
  unfoldable pub v_scroll_bar : ℕ → ℤ → Program → Program × ℤ
  v_scroll_bar code track p =
      let vert_pos = p.v_bar.n_pos in
      let moved = place p.v_bar (v_wanted p.v_bar code track) in
      let bar : ScrollInfo = record p.v_bar { n_pos = moved } in
      (
        record p { v_bar = bar; is_invalid = if eq_ℤ moved vert_pos then p.is_invalid else true },
        vert_pos,
      )

  unfoldable pub h_scroll_bar : ℕ → ℤ → Program → Program × ℤ
  h_scroll_bar code track p =
      let horz_pos = p.h_bar.n_pos in
      let moved = place p.h_bar (h_wanted p.h_bar code track) in
      let bar : ScrollInfo = record p.h_bar { n_pos = moved } in
      (
        record p { h_bar = bar; is_invalid = if eq_ℤ moved horz_pos then p.is_invalid else true },
        horz_pos,
      )

  -- Both bars run from 0 to 1000 by pages of 35, and go back to 0.
  unfoldable pub wm_size : Program → Program
  wm_size p =
      let asked : ScrollInfo = record {
        n_min = pos 0;
        n_max = pos 1000;
        n_page = pos 35;
        n_pos = pos 0;
      } in
      let bar : ScrollInfo = record asked { n_pos = place asked (pos 0) } in
      record p { v_bar = bar; h_bar = bar }
