-- ===== src/Resolver/Tests.antt =====
-- The theorems on the look-ups at a concrete Winsock, which knows one host and one service.
use ridingthecode.Common.{
  ℕ, leb, length, ◌*◌, ◌+◌, ◌/◌, ◌%◌, [], ◌∷◌, ◌++◌, none, some, ◌==◌, if◌then◌else◌, arith, ◌≡◌,
  ◌≢◌, refl, false,
}
use ridingthecode.Common.Int.{pos, negsuc}
use ridingthecode.Common.Text.{codes, same_bytes}
use ridingthecode.Common.Decimal.{decimal}
use ridingthecode.Common.Fault.{ok, fault, OnOk}
use ridingthecode.Resolver.{
  HostEnt, ServEnt, host, no_host, Winsock, Window, get_protocol, resolve_ip, resolve_host,
  resolve_service, resolve_port, window_text, start_winsock, add_strings, phosterr, found_host,
}
use ridingthecode.Resolver.Services.{
  service_lines, port_lines, asking_port, Leaves, left_by_host, left_by_service, service-port,
  service_overflows, lookups_leave,
}

-- The two bytes of a number, the other way round.
abbrev swap : ℕ → ℕ
swap n = n % 256 * 256 + n / 256

abbrev http : ServEnt
http = record { s_name = codes "http"; s_port = 20480 }

abbrev here : HostEnt
here = record { h_name = codes "here"; h_aliases = codes "home" ∷ []; h_addr_list = 16777343 ∷ [] }

abbrev known : Winsock
known = record {
  inet_addr = λ t. 16777343;
  inet_ntoa = λ a. codes "127.0.0.1";
  gethostbyaddr = λ a. some here;
  gethostbyname = λ t. if same_bytes t (codes "here") then host here else no_host 11001;
  getservbyname = λ s t. if same_bytes s (codes "http") then some http else none;
  getservbyport = λ p t. if p == 20480 then some http else none;
  ntohs = swap;
  htons = swap;
}

abbrev window : Window
window = record {
  ip_ctrl = codes "127.0.0.1";
  host_ctrl = codes "there";
  port_ctrl = [];
  service_ctrl = codes "http";
  port_cb = negsuc 0;
  service_cb = pos 0;
  text_box = [];
  startups = 0;
  cleanups = 0;
  has_quit = false;
}

chosen : (get_protocol window.service_cb).0 ≢ 0
unfolding get_protocol
chosen = omega arith

service-port_example :
    (w1 w2 : Window) × (resolve_service known 16 window
      ≡ (if leb (length (decimal 80) + 1) 16 then ok (0, w1) else fault))
    × (resolve_service known 1 window ≡ fault)
    × (resolve_port known (asking_port 80 window w1) ≡ (0, w2))
    × (w2.text_box ≡ [] ++ service_lines (codes "http") 80 ++ port_lines 80 (codes "http"))
unfolding same_bytes
service-port_example =
    service-port known 16 window http http chosen (omega arith) refl (omega arith) refl refl refl

one_byte_block : resolve_service known 1 window ≡ fault
unfolding same_bytes window_text
one_byte_block = service_overflows known window http chosen refl

lookups_leave_example :
    Leaves (left_by_host (resolve_ip known window).0) window (resolve_ip known window).1
    × Leaves (left_by_host (resolve_host known window).0) window (resolve_host known window).1
    × Leaves (left_by_service (resolve_port known window).0) window (resolve_port known window).1
    × OnOk
        (λ (r : ℕ × Window). Leaves (left_by_service r.0) window r.1)
        (resolve_service known 16 window)
lookups_leave_example = lookups_leave known 16 window

-- A host that is not known.
unknown_host : (resolve_host known window).1.text_box ≡ codes "Host not found" ∷ []
unfolding resolve_host found_host phosterr add_strings start_winsock window_text same_bytes
unknown_host = refl
