-- ===== src/Shaper/Ids.antt =====
-- The numbers of Win32_Shaper/win32Project/resource.h: colours, shapes and modes, and the controls of
-- the menu and of the paint box.
use ridingthecode.Common.{ℕ}

abbrev pub range_min : ℕ
range_min = 0

abbrev pub red : ℕ
red = 0

abbrev pub square : ℕ
square = 0

abbrev pub normal : ℕ
normal = 0

abbrev pub blue : ℕ
blue = 1

abbrev pub circle : ℕ
circle = 1

abbrev pub xor : ℕ
xor = 1

abbrev pub green : ℕ
green = 2

abbrev pub inverse : ℕ
inverse = 2

abbrev pub black : ℕ
black = 3

abbrev pub notxor : ℕ
notxor = 3

abbrev pub white : ℕ
white = 4

abbrev pub range_max : ℕ
range_max = 5

abbrev pub idm_about : ℕ
idm_about = 104

abbrev pub idm_exit : ℕ
idm_exit = 105

abbrev pub idc_erase : ℕ
idc_erase = 1000

abbrev pub idc_pen_red : ℕ
idc_pen_red = 1001

abbrev pub default_color_pen : ℕ
default_color_pen = 1001

abbrev pub idc_pen_blue : ℕ
idc_pen_blue = 1002

abbrev pub idc_pen_green : ℕ
idc_pen_green = 1003

abbrev pub idc_pen_black : ℕ
idc_pen_black = 1004

abbrev pub idc_pen_white : ℕ
idc_pen_white = 1005

abbrev pub idc_bg_red : ℕ
idc_bg_red = 1006

abbrev pub default_color_bg : ℕ
default_color_bg = 1006

abbrev pub idc_bg_blue : ℕ
idc_bg_blue = 1007

abbrev pub idc_bg_green : ℕ
idc_bg_green = 1008

abbrev pub idc_bg_black : ℕ
idc_bg_black = 1009

abbrev pub idc_bg_white : ℕ
idc_bg_white = 1010

abbrev pub idc_shape_square : ℕ
idc_shape_square = 1011

abbrev pub default_shape : ℕ
default_shape = 1011

abbrev pub idc_shape_circle : ℕ
idc_shape_circle = 1012

abbrev pub default_mode : ℕ
default_mode = 1014

abbrev pub idc_mode_normal : ℕ
idc_mode_normal = 1014

abbrev pub idc_mode_xor : ℕ
idc_mode_xor = 1015

abbrev pub idc_mode_inverse : ℕ
idc_mode_inverse = 1016

abbrev pub idc_mode_notxor : ℕ
idc_mode_notxor = 1017

abbrev pub id_shape_square : ℕ
id_shape_square = 32773

abbrev pub default_menu_shape : ℕ
default_menu_shape = 32773

abbrev pub id_shape_circle : ℕ
id_shape_circle = 32774

abbrev pub id_pen_red : ℕ
id_pen_red = 32775

abbrev pub default_menu_pen : ℕ
default_menu_pen = 32775

abbrev pub id_pen_blue : ℕ
id_pen_blue = 32776

abbrev pub id_pen_green : ℕ
id_pen_green = 32777

abbrev pub id_pen_black : ℕ
id_pen_black = 32778

abbrev pub id_pen_white : ℕ
id_pen_white = 32779

abbrev pub id_background_red : ℕ
id_background_red = 32780

abbrev pub default_menu_bg : ℕ
default_menu_bg = 32780

abbrev pub id_background_blue : ℕ
id_background_blue = 32781

abbrev pub id_background_green : ℕ
id_background_green = 32782

abbrev pub id_background_black : ℕ
id_background_black = 32783

abbrev pub id_background_white : ℕ
id_background_white = 32784

abbrev pub id_mode_normal : ℕ
id_mode_normal = 32785

abbrev pub default_menu_mode : ℕ
default_menu_mode = 32785

abbrev pub id_mode_xor : ℕ
id_mode_xor = 32786

abbrev pub id_mode_inverse : ℕ
id_mode_inverse = 32787

abbrev pub id_mode_notxor : ℕ
id_mode_notxor = 32788

abbrev pub id_party : ℕ
id_party = 32790

abbrev pub id_copy : ℕ
id_copy = 32792

abbrev pub id_paste : ℕ
id_paste = 32793

abbrev pub id_mini_party : ℕ
id_mini_party = 32794
