-- ===== src/Resolver.antt =====
-- The look-ups of SimpleTCPIPResolver/Assignment1Term4_v2/utility.cpp, and the buttons of
-- Assignment1Term4_v2.cpp that call them.
mod Tests
pub mod Services
use ridingthecode.Common.{
  ℕ, suc, ◌+◌, ◌-◌, ◌%◌, ◌^◌, List, [], ◌∷◌, ◌++◌, Option, none, some, Bool, true, ◌==◌, leb,
  length, take, if◌then◌else◌,
}
use ridingthecode.Common.Int.{ℤ, pos, negsuc}
use ridingthecode.Common.Text.{Bytes, codes}
use ridingthecode.Common.Decimal.{decimal, atoi}
use ridingthecode.Common.Fault.{Fault, ok, fault, ◌>>=◌}

abbrev max_loadstring : ℕ
max_loadstring = 100

abbrev max_ip_size : ℕ
max_ip_size = 255

-- What gethostbyaddr and gethostbyname give: an address is the number of its four bytes.
pub record HostEnt : Type 0 where
  pub h_name : Bytes
  pub h_aliases : List Bytes
  pub h_addr_list : List ℕ

-- What getservbyname and getservbyport give: the port is in the order of the network.
pub record ServEnt : Type 0 where
  pub s_name : Bytes
  pub s_port : ℕ

-- A host, or the value of h_errno.
pub data HostAnswer : Type 0 where
  host : HostEnt → HostAnswer
  no_host : ℕ → HostAnswer

-- The functions of Winsock that the program calls.
pub record Winsock : Type 0 where
  pub inet_addr : Bytes → ℕ
  pub inet_ntoa : ℕ → Bytes
  pub gethostbyaddr : ℕ → Option HostEnt
  pub gethostbyname : Bytes → HostAnswer
  pub getservbyname : Bytes → Bytes → Option ServEnt
  pub getservbyport : ℕ → Bytes → Option ServEnt
  pub ntohs : ℕ → ℕ
  pub htons : ℕ → ℕ

-- What stands in the four edit controls and is chosen in the two combo boxes (-1 for nothing), the lines
-- of the list box, and how often WSAStartup and WSACleanup were called.
pub record Window : Type 0 where
  pub ip_ctrl : Bytes
  pub host_ctrl : Bytes
  pub port_ctrl : Bytes
  pub service_ctrl : Bytes
  pub port_cb : ℤ
  pub service_cb : ℤ
  pub text_box : List Bytes
  pub startups : ℕ
  pub cleanups : ℕ
  pub has_quit : Bool

-- GetWindowText into a buffer of a size.
unfoldable pub window_text : ℕ → Bytes → Bytes
window_text size text = take (size - 1) text

-- LB_ADDSTRING for each line
unfoldable pub add_strings : List Bytes → Window → Window
add_strings lines w = record w { text_box = w.text_box ++ lines }

unfoldable pub start_winsock : Window → Window
start_winsock w = record w { startups = w.startups + 1 }

unfoldable pub clean_up : Window → Window
clean_up w = record w { cleanups = w.cleanups + 1 }

-- The number that is returned, and what is written to the buffer.
unfoldable pub get_protocol : ℤ → ℕ × Bytes
get_protocol (pos n) =
    if n == 0 then (1, codes "TCP") else if n == 1 then (2, codes "UDP") else (0, [])
get_protocol (negsuc n) = (0, [])

-- HOST_NOT_FOUND, TRY_AGAIN, NO_RECOVERY and NO_ADDRESS of winsock2.h are 11001 to 11004.
unfoldable pub phosterr : ℕ → Bytes
phosterr h_errno =
    if h_errno == 11001
    then codes "Host not found"
    else if h_errno == 11002
    then codes "Try again later"
    else if h_errno == 11003
    then codes "DNS Error"
    else if h_errno == 11004
    then codes "Host has no address"
    else codes "Unknown Error"

-- `htons(s_port)` takes the low 16 bits of an int.
abbrev pub low_word : ℤ → ℕ
low_word (pos n) = n % 2 ^ 16
low_word (negsuc n) = 2 ^ 16 - 1 - n % 2 ^ 16

module _ (ws : Winsock) where
  -- The loop of resolve_IP over the addresses.
  unfoldable pub ip_lines : HostEnt → List ℕ → List Bytes
  ip_lines hp [] = []
  ip_lines hp (a ∷ addrs) =
      codes "IP Resolved" ∷ hp.h_name ∷ ws.inet_ntoa a ∷ (hp.h_aliases ++ ip_lines hp addrs)

  unfoldable pub found_ip : Option HostEnt → Window → ℕ × Window
  found_ip none w = (2, add_strings (codes "Host information for IP not found" ∷ []) w)
  found_ip (some hp) w = (0, clean_up (add_strings (ip_lines hp hp.h_addr_list) w))

  -- The number is what is returned.
  unfoldable pub resolve_ip : Window → ℕ × Window
  unfolding found_ip ip_lines
  resolve_ip w =
      let addr = ws.inet_addr (window_text max_ip_size w.ip_ctrl) in
      let w' = start_winsock w in
      if addr == 0
      then (1, add_strings (codes "IP Address must be of the form x.x.x.x" ∷ []) w')
      else found_ip (ws.gethostbyaddr addr) w'

  -- The loop of resolve_host over the addresses.
  unfoldable pub host_lines : HostEnt → List ℕ → List Bytes
  host_lines hp [] = []
  host_lines hp (a ∷ addrs) = ws.inet_ntoa a ∷ (hp.h_aliases ++ host_lines hp addrs)

  unfoldable pub found_host : HostAnswer → Window → ℕ × Window
  found_host (no_host h_errno) w = (1, add_strings (phosterr h_errno ∷ []) w)
  found_host (host hp) w = (
    0,
    clean_up (add_strings (codes "Host Resolved" ∷ hp.h_name ∷ host_lines hp hp.h_addr_list) w),
  )

  unfoldable pub resolve_host : Window → ℕ × Window
  unfolding found_host host_lines
  resolve_host w =
      found_host (ws.gethostbyname (window_text max_ip_size w.host_ctrl)) (start_winsock w)

  -- The port is printed into a block of `block` bytes.
  unfoldable pub found_service : ℕ → Bytes → Option ServEnt → Window → Fault (ℕ × Window)
  found_service block serv none w = ok (2, add_strings (codes "Error in getservbyname" ∷ []) w)
  found_service block serv (some sv) w =
      let prt = decimal (ws.ntohs sv.s_port) in
      if leb (length prt + 1) block
      then ok (0, clean_up (add_strings (codes "Service Resolved" ∷ serv ∷ prt ∷ []) w))
      else fault

  -- `block` is how much malloc(1) gives: a byte by the standard, and more in some implementations.
  unfoldable pub resolve_service : ℕ → Window → Fault (ℕ × Window)
  unfolding found_service
  resolve_service block w =
      let (protocol, prtcl) = get_protocol w.service_cb in
      let serv = window_text max_loadstring w.service_ctrl in
      if protocol == 0
      then ok (1, add_strings (codes "No protocol selected" ∷ []) w)
      else found_service block serv (ws.getservbyname serv prtcl) (start_winsock w)

  unfoldable pub found_port : Bytes → Option ServEnt → Window → ℕ × Window
  found_port port none w = (2, add_strings (codes "Error in getservbyport" ∷ []) w)
  found_port port (some sv) w =
      (0, clean_up (add_strings (codes "Port Resolved" ∷ port ∷ sv.s_name ∷ []) w))

  unfoldable pub resolve_port : Window → ℕ × Window
  unfolding found_port
  resolve_port w =
      let (protocol, prtcl) = get_protocol w.port_cb in
      let port = window_text max_loadstring w.port_ctrl in
      if protocol == 0
      then (1, add_strings (codes "No protocol selected" ∷ []) w)
      else found_port port (ws.getservbyport (ws.htons (low_word (atoi port))) prtcl)
          (start_winsock w)

-- The commands of the window.
pub data Command : Type 0 where
  about : Command
  clear : Command
  ok_ip : Command
  ok_host : Command
  ok_port : Command
  ok_service : Command
  exit : Command
  other : Command

-- What the look-ups return is not used.
unfoldable pub main_on_command : Winsock → ℕ → Command → Window → Fault Window
main_on_command ws block about w = ok w
main_on_command ws block clear w = ok (record w { text_box = [] })
main_on_command ws block ok_ip w = ok (resolve_ip ws w).1
main_on_command ws block ok_host w = ok (resolve_host ws w).1
main_on_command ws block ok_port w = ok (resolve_port ws w).1
main_on_command ws block ok_service w = resolve_service ws block w >>= (λ r. ok r.1)
main_on_command ws block exit w = ok (record w { has_quit = true })
main_on_command ws block other w = ok w
