-- ===== src/Resolver/Services.antt =====
-- A service and its port, looked up one from the other; the block that the port is printed into; and
-- the calls of WSAStartup that no WSACleanup matches.
use ridingthecode.Common.{
  ℕ, ◌+◌, ◌^◌, ◌<◌, ◌≤◌, List, [], ◌∷◌, ◌++◌, Option, none, some, Bool, true, false, ◌==◌, leb,
  length, take_all, if◌then◌else◌, arith, ◌≡◌, ◌≢◌, refl, ap, ◌∙◌, if_false,
}
use ridingthecode.Common.Text.{Bytes, codes}
use ridingthecode.Common.Decimal.{
  decimal, atoi, atoi-decimal, length-decimal-le, length-decimal-pos,
}
use ridingthecode.Common.Fault.{ok, fault, OnOk, OnOk-if}
use ridingthecode.Resolver.{
  max_loadstring, ServEnt, Winsock, Window, window_text, add_strings, start_winsock, clean_up,
  get_protocol, low_word, resolve_ip, resolve_host, resolve_service, resolve_port, found_service,
  found_port, found_ip, found_host, HostAnswer, HostEnt, host, max_ip_size, no_host,
}

window_text_all : (text : Bytes) → length text ≤ 99 → window_text max_loadstring text ≡ text
unfolding window_text
window_text_all text h = take_all 99 text h

too_long : (t : Bytes) → 0 < length t → leb (length t + 1) 1 ≡ false
too_long t h = ground arith

ne_test : {n : ℕ} → n ≢ 0 → (n == 0) ≡ false
ne_test h = ground arith

-- The lines that a look-up of a service adds, and those of a port.
pub service_lines : Bytes → ℕ → List Bytes
service_lines serv port = codes "Service Resolved" ∷ serv ∷ decimal port ∷ []

pub port_lines : ℕ → Bytes → List Bytes
port_lines port name = codes "Port Resolved" ∷ decimal port ∷ name ∷ []

module _ (ws : Winsock) (block : ℕ) (w : Window) (sv : ServEnt) where
  -- With a protocol chosen and a service of at most 99 characters that Winsock finds under it, the
  -- look-up returns 0 and adds the service and its port where the port, as text, fits the block.
  resolve_service_found :
      (get_protocol w.service_cb).0 ≢ 0
      → length w.service_ctrl ≤ 99
      → ws.getservbyname w.service_ctrl (get_protocol w.service_cb).1 ≡ some sv
      → resolve_service ws block w ≡ (
          if leb (length (decimal (ws.ntohs sv.s_port)) + 1) block
          then ok (
            0,
            clean_up
                (add_strings (service_lines w.service_ctrl (ws.ntohs sv.s_port)) (start_winsock w)),
          )
          else fault)
  unfolding resolve_service found_service service_lines
  resolve_service_found chosen short found =
      let serv = window_text max_loadstring w.service_ctrl in
      let prtcl = (get_protocol w.service_cb).1 in
      let w' = start_winsock w in
      if_false _ (found_service ws block serv (ws.getservbyname serv prtcl) w') (ne_test chosen)
      ∙ ap (λ t. found_service ws block t (ws.getservbyname t prtcl) w')
          (window_text_all w.service_ctrl short)
      ∙ ap (λ o. found_service ws block w.service_ctrl o w') found

  resolve_port_found :
      (get_protocol w.port_cb).0 ≢ 0
      → w.port_ctrl ≡ decimal (ws.ntohs sv.s_port)
      → ws.ntohs sv.s_port < 2 ^ 16
      → ws.htons (ws.ntohs sv.s_port) ≡ sv.s_port
      → (back : ServEnt) → ws.getservbyport sv.s_port (get_protocol w.port_cb).1 ≡ some back
      → resolve_port ws w ≡ (
        0,
        clean_up (add_strings (port_lines (ws.ntohs sv.s_port) back.s_name) (start_winsock w)),
      )
  unfolding resolve_port found_port port_lines
  resolve_port_found chosen typed port order back found =
      let prtcl = (get_protocol w.port_cb).1 in
      let w' = start_winsock w in
      let n = ws.ntohs sv.s_port in
      let short : window_text max_loadstring (decimal n) ≡ decimal n =
        window_text_all (decimal n) (omega (arith, length-decimal-le n)) in
      let read : low_word (atoi (decimal n)) ≡ n =
        ap low_word (atoi-decimal n (omega arith)) ∙ omega arith in
      if_false _ _ (ne_test chosen)
      ∙ ap (λ t. found_port ws t (ws.getservbyport (ws.htons (low_word (atoi t))) prtcl) w')
          (ap (window_text max_loadstring) typed ∙ short)
      ∙ ap (λ o. found_port ws (decimal n) o w')
          (ap (λ t. ws.getservbyport t prtcl) (ap ws.htons read ∙ order) ∙ found)

-- Where malloc(1) gives one byte, the look-up of a service that is found, at whatever port, writes
-- behind its block.
pub service_overflows :
    (ws : Winsock) (w : Window) (sv : ServEnt)
    → (get_protocol w.service_cb).0 ≢ 0
    → ws.getservbyname (window_text max_loadstring w.service_ctrl) (get_protocol w.service_cb).1
      ≡ some sv
    → resolve_service ws 1 w ≡ fault
unfolding resolve_service found_service
service_overflows ws w sv chosen found =
    let serv = window_text max_loadstring w.service_ctrl in
    if_false _
      (found_service ws 1 serv (ws.getservbyname serv (get_protocol w.service_cb).1)
        (start_winsock w))
      (ne_test chosen)
    ∙ ap (λ o. found_service ws 1 serv o (start_winsock w)) found
    ∙ if_false _ fault
        (too_long (decimal (ws.ntohs sv.s_port)) (length-decimal-pos (ws.ntohs sv.s_port)))

-- The window in which a port and a protocol were chosen next.
pub asking_port : ℕ → Window → Window → Window
asking_port port before w = record w { port_ctrl = decimal port; port_cb = before.service_cb }

-- Where Winsock finds a service of at most 99 characters under a chosen protocol, at a port below
-- 2 ^ 16 that htons turns back, and finds a service with the same name at that port: the look-up of the
-- service returns 0 and adds it with its port exactly where the port, as text with its NUL, fits the
-- block that malloc(1) gives, and else writes behind it, as it does, at every port, where that block has
-- the one byte that is asked for. The look-up of that port, made from the window that the first one leaves
-- where it does not, returns 0 and adds the port with its service.
pub service-port :
    (ws : Winsock) (block : ℕ) (w : Window) (sv back : ServEnt)
    → (get_protocol w.service_cb).0 ≢ 0
    → length w.service_ctrl ≤ 99
    → ws.getservbyname w.service_ctrl (get_protocol w.service_cb).1 ≡ some sv
    → ws.ntohs sv.s_port < 2 ^ 16
    → ws.htons (ws.ntohs sv.s_port) ≡ sv.s_port
    → ws.getservbyport sv.s_port (get_protocol w.service_cb).1 ≡ some back
    → back.s_name ≡ w.service_ctrl
    → (w1 w2 : Window) × (resolve_service ws block w
        ≡ (if leb (length (decimal (ws.ntohs sv.s_port)) + 1) block then ok (0, w1) else fault))
      × (resolve_service ws 1 w ≡ fault)
      × (resolve_port ws (asking_port (ws.ntohs sv.s_port) w w1) ≡ (0, w2))
      × (w2.text_box
          ≡ w.text_box
            ++ service_lines w.service_ctrl (ws.ntohs sv.s_port)
            ++ port_lines (ws.ntohs sv.s_port) w.service_ctrl)
unfolding asking_port clean_up add_strings start_winsock
service-port ws block w sv back chosen short found port order found' same =
    let n = ws.ntohs sv.s_port in
    let w1 = clean_up (add_strings (service_lines w.service_ctrl n) (start_winsock w)) in
    let asked = asking_port n w w1 in
    (
      w1,
      clean_up (add_strings (port_lines n back.s_name) (start_winsock asked)),
      resolve_service_found ws block w sv chosen short found,
      service_overflows ws w sv chosen (
          ap (λ t. ws.getservbyname t (get_protocol w.service_cb).1)
            (window_text_all w.service_ctrl short)
          ∙ found),
      resolve_port_found ws block asked sv chosen refl port order back found',
      ap (λ t. w.text_box ++ service_lines w.service_ctrl n ++ port_lines n t) same,
    )

-- Of the calls of WSAStartup between two windows, all but `k` are followed by one of WSACleanup.
abbrev pub Leaves : ℕ → Window → Window → Type 0
Leaves k w w' =
    (w.cleanups ≤ w'.cleanups) × (w'.startups + w.cleanups ≡ w.startups + w'.cleanups + k)

-- What resolve_IP and resolve_host leave by what they return, and what the other two do.
abbrev pub left_by_host : ℕ → ℕ
left_by_host code = if code == 0 then 0 else 1

abbrev pub left_by_service : ℕ → ℕ
left_by_service code = if code == 2 then 1 else 0

module _ (ws : Winsock) (w : Window) where
  ip-Leaves :
      (o : Option HostEnt)
      → Leaves
          (left_by_host (found_ip ws o (start_winsock w)).0)
          w
          (found_ip ws o (start_winsock w)).1
  unfolding found_ip add_strings clean_up start_winsock
  ip-Leaves none = omega arith
  ip-Leaves (some hp) = omega arith

  resolve_ip-Leaves : Leaves (left_by_host (resolve_ip ws w).0) w (resolve_ip ws w).1
  unfolding resolve_ip add_strings start_winsock
  resolve_ip-Leaves =
      split (ws.inet_addr (window_text max_ip_size w.ip_ctrl) == 0)
        (ws.gethostbyaddr (ws.inet_addr (window_text max_ip_size w.ip_ctrl)))
    where
      split :
          (b : Bool) (o : Option HostEnt)
          → let r =
              if b
              then (
                1,
                add_strings (codes "IP Address must be of the form x.x.x.x" ∷ []) (start_winsock w),
              )
              else found_ip ws o (start_winsock w) in
            Leaves (left_by_host r.0) w r.1
      split true o = omega arith
      split false o = ip-Leaves o

  resolve_host-Leaves : Leaves (left_by_host (resolve_host ws w).0) w (resolve_host ws w).1
  unfolding resolve_host found_host add_strings clean_up start_winsock
  resolve_host-Leaves = split (ws.gethostbyname (window_text max_ip_size w.host_ctrl))
    where
      split :
          (a : HostAnswer)
          → Leaves
              (left_by_host (found_host ws a (start_winsock w)).0)
              w
              (found_host ws a (start_winsock w)).1
      split (host hp) = omega arith
      split (no_host e) = omega arith

  port-Leaves :
      (b : Bool) (port : Bytes) (o : Option ServEnt)
      → let r =
          if b
          then (1, add_strings (codes "No protocol selected" ∷ []) w)
          else found_port ws port o (start_winsock w) in
        Leaves (left_by_service r.0) w r.1
  unfolding found_port add_strings clean_up start_winsock
  port-Leaves true port o = omega arith
  port-Leaves false port none = omega arith
  port-Leaves false port (some sv) = omega arith

  service-Leaves :
      (b : Bool) (block : ℕ) (serv : Bytes) (o : Option ServEnt)
      → OnOk
          (λ (r : ℕ × Window). Leaves (left_by_service r.0) w r.1)
          (if b
            then ok (1, add_strings (codes "No protocol selected" ∷ []) w)
            else found_service ws block serv o (start_winsock w))
  unfolding found_service add_strings clean_up start_winsock
  service-Leaves true block serv o = omega arith
  service-Leaves false block serv none = omega arith
  service-Leaves false block serv (some sv) =
      OnOk-if (λ (r : ℕ × Window). Leaves (left_by_service r.0) w r.1)
        (leb (length (decimal (ws.ntohs sv.s_port)) + 1) block) _ _ (omega arith) tt

-- A look-up of an address or of a host that returns another number than 0 leaves one call of WSAStartup
-- without one of WSACleanup, and one that returns 0 leaves none. A look-up of a port, or of a service
-- where that is no fault, leaves one exactly if it returns 2.
pub lookups_leave :
    (ws : Winsock) (block : ℕ) (w : Window)
    → Leaves (left_by_host (resolve_ip ws w).0) w (resolve_ip ws w).1
      × Leaves (left_by_host (resolve_host ws w).0) w (resolve_host ws w).1
      × Leaves (left_by_service (resolve_port ws w).0) w (resolve_port ws w).1
      × OnOk (λ (r : ℕ × Window). Leaves (left_by_service r.0) w r.1) (resolve_service ws block w)
unfolding resolve_port resolve_service
lookups_leave ws block w = (
  resolve_ip-Leaves ws w,
  resolve_host-Leaves ws w,
  port-Leaves ws w _ _ _,
  service-Leaves ws w _ block _ _,
)
