-- ===== src/Dhcp/Examples.antt =====
-- Runs of the address pool at fixed inputs.
use fastrg_node.Base.{
  ℕ, zero, suc, ◌<◌, List, length, get_or, ◌*◌, ◌+◌, ◌-◌, ◌^◌, ◌≤◌, ◌≡◌, [], ◌∷◌, true, false, none,
  some, get_elem?, take, ◌⊎◌, inl, inr, refl, ◌≢◌, arith,
}
use fastrg_node.Dhcp.Request.{
  Layout, Message, malformed, refused, accepted, is_servable, names_server, choose, decode_options,
  Answers, decode_options-Answers,
}
use fastrg_node.Dhcp.Fsm.{
  dhcp_fsm_tbl, rows_of_state, row_of_event, run_row, dhcp_fsm, serve, find_user, pick_user,
  e_release, e_good_request, e_timeout,
}
use fastrg_node.Dhcp.Timeout.{dhcp_fsm-timeout}
use fastrg_node.Dhcp.Expiry.{Armed, AllArmed, serve-AllArmed}
use fastrg_node.Dhcp.{
  ip_is_reserved, LanUser, Ccb, Status, check_pool, pick_ip_from_pool, pool_init_by_user,
  window_len, claimed, select, first_open,
}
use fastrg_node.Dhcp.Leases.{Handed, AllTaken, check_pool-Handed, pick_ip_from_pool-Handed}
use fastrg_node.Dhcp.Window.{Holds, pool_init_by_user-IsReset}

abbrev no_user : LanUser
no_user = record {
  state = 1;
  lan_user_used = false;
  user_mac = 0;
  timer = false;
  mac_addr = 0;
  ip_addr = 0;
  used = false;
  reserved = false;
  pool_index = 0;
}

-- The entries of 10.0.0.255, which is reserved, 10.0.1.1, in use by the client 9, and 10.0.1.2.
abbrev three : Ccb
three = record {
  dhcp_server_ip = 0x0a000101;
  per_lan_user_pool =
      record no_user { reserved = true; ip_addr = 0x0a0000ff }
      ∷ (record no_user { used = true; mac_addr = 9; ip_addr = 0x0a000101 }
          ∷ (record no_user { ip_addr = 0x0a000102 } ∷ []));
  per_lan_user_pool_len = 3;
  pool_start = 0x0a0000ff;
  pool_end = 0x0a000102;
  subnet_mask = 0xffff0000;
}

check_pool-Handed_example :
    (Handed (λ e. record e { used = true; mac_addr = 7 }) 7 three (check_pool three 0 7))
    ⊎ ((check_pool three 0 7 ≡ (none, three))
        × AllTaken 7 (take three.per_lan_user_pool_len three.per_lan_user_pool))
check_pool-Handed_example = check_pool-Handed three 0 7

pick_ip_from_pool-Handed_example :
    (Handed (λ e. record e { mac_addr = 9 }) 9 three (pick_ip_from_pool three 2 9))
    ⊎ ((pick_ip_from_pool three 2 9 ≡ (none, three))
        × AllTaken 9 (take three.per_lan_user_pool_len three.per_lan_user_pool))
pick_ip_from_pool-Handed_example = pick_ip_from_pool-Handed three 2 9

-- The array of a subscriber.
unfoldable users : ℕ → List LanUser
users zero = []
users (suc n) = no_user ∷ users n

length-users : (n : ℕ) → length (users n) ≡ n
unfolding users
length-users zero = refl
length-users (suc n) = omega (arith, length-users n)

abbrev whole : Ccb
whole = record three { per_lan_user_pool = users (2 ^ 17) }

abbrev first_ip : ℕ
first_ip = 0x0a0000ff

abbrev last_ip : ℕ
last_ip = 0x0a000101

-- A window from 10.0.0.255 to 10.0.1.1, with addresses in host order.
pool_init_by_user-IsReset_example :
    ((last_ip - first_ip < 2 ^ 17)
      × Holds (λ x. x) 3 first_ip last_ip (pool_init_by_user (λ x. x) whole 1 first_ip last_ip 2))
    ⊎ ((2 ^ 17 ≤ last_ip - first_ip)
        × (last_ip - first_ip < 2 ^ 32 - 1)
        × (pool_init_by_user (λ x. x) whole 1 first_ip last_ip 2 ≡ (Status.error, whole)))
    ⊎ ((first_ip ≡ 0)
        × (last_ip ≡ 2 ^ 32 - 1)
        × ((pool_init_by_user (λ x. x) whole 1 first_ip last_ip 2).0 ≡ Status.success)
        × ((pool_init_by_user (λ x. x) whole 1 first_ip last_ip 2).1.per_lan_user_pool_len ≡ 0))
pool_init_by_user-IsReset_example =
    pool_init_by_user-IsReset (λ x. x) whole 1 first_ip last_ip 2 (omega arith) (omega arith)
      (length-users (2 ^ 17))

-- The whole address space: the length of the range wraps to 0.
whole_space : (pool_init_by_user (λ x. x) three 1 0 0xffffffff 0).1.per_lan_user_pool_len ≡ 0
unfolding pool_init_by_user window_len
whole_space = refl

-- The client 9 has the second entry, and gets it again.
kept_lease : (check_pool three 0 9).0 ≡ some 1
unfolding check_pool claimed select first_open
kept_lease = refl

-- The first user is free, the second has a lease of the client 9.
abbrev leased : Ccb
leased = record three {
  per_lan_user_pool =
      record no_user { ip_addr = 0x0a000102 }
      ∷ (record no_user {
        state = 5;
        lan_user_used = true;
        user_mac = 9;
        timer = true;
        used = true;
        mac_addr = 9;
        ip_addr = 0x0a000103;
      }
          ∷ []);
  per_lan_user_pool_len = 2;
}

-- A packet of that client gets the free user.
wrong_user : (pick_user leased 9).0 ≡ some 0
unfolding pick_user find_user
wrong_user = refl

-- So its release is refused, and the lease stays.
release_refused :
    ((dhcp_fsm leased 0 9 e_release).0 ≡ Status.error)
    × (get_elem? ((serve leased 0 9 e_release).per_lan_user_pool) 1
        ≡ get_elem? leased.per_lan_user_pool 1)
unfolding serve dhcp_fsm dhcp_fsm_tbl rows_of_state row_of_event run_row
release_refused = (refl, refl)

leased-AllArmed : AllArmed leased.per_lan_user_pool
unfolding Armed
leased-AllArmed = (inl refl, (inr refl, tt))

serve-AllArmed_example : AllArmed ((serve leased 1 9 e_good_request).per_lan_user_pool)
serve-AllArmed_example = serve-AllArmed leased 1 9 e_good_request leased-AllArmed

dhcp_fsm-timeout_example :
    ((dhcp_fsm leased 1 9 e_timeout).0 ≡ Status.success)
    × (get_elem? (((dhcp_fsm leased 1 9 e_timeout).1).per_lan_user_pool) 1
        ≡ some (record no_user { mac_addr = 9; ip_addr = 0x0a000103 }))
    × ((j : ℕ)
        → 1 ≢ j
        → get_elem? (((dhcp_fsm leased 1 9 e_timeout).1).per_lan_user_pool) j
          ≡ get_elem? leased.per_lan_user_pool j)
dhcp_fsm-timeout_example = dhcp_fsm-timeout leased 1 9 _ refl (inr refl)

-- A big-endian machine.
abbrev big_endian : Layout
big_endian = record {
  be_to_cpu_32 = λ x. x;
  word = λ m p. ((m p * 256 + m (p + 1)) * 256 + m (p + 2)) * 256 + m (p + 3);
  ether = λ m p. m (p + 5);
}

-- A request of the client 9 with the options `options`, whose header has the your-address 10.0.0.255.
abbrev request : List ℕ → Message
request options = record {
  client_ip = 0;
  your_ip = 0x0a0000ff;
  source = 9;
  is_broadcast = true;
  field_len = length options;
  byte = λ p. get_or options p 0;
}

-- One that asks for 10.0.1.2, and one for 10.0.1.255.
asks_good :
    decode_options big_endian three (request (53 ∷ 1 ∷ 3 ∷ 50 ∷ 4 ∷ 10 ∷ 0 ∷ 1 ∷ 2 ∷ 255 ∷ []))
    ≡ accepted 9 0x0a000102
unfolding decode_options choose is_servable ip_is_reserved names_server
asks_good = refl

asks_bad :
    decode_options big_endian three (request (53 ∷ 1 ∷ 3 ∷ 50 ∷ 4 ∷ 10 ∷ 0 ∷ 1 ∷ 255 ∷ 255 ∷ []))
    ≡ refused
unfolding decode_options choose is_servable ip_is_reserved names_server
asks_bad = refl

too_long : decode_options big_endian three (request (53 ∷ 9 ∷ 3 ∷ [])) ≡ malformed
unfolding decode_options choose is_servable ip_is_reserved names_server
too_long = refl

-- Without the option, the reserved address in the client's header is accepted.
unchecked :
    decode_options big_endian three (request (53 ∷ 1 ∷ 3 ∷ 255 ∷ [])) ≡ accepted 9 0x0a0000ff
unfolding decode_options choose is_servable ip_is_reserved names_server
unchecked = refl

decode_options-Answers_example :
    Answers big_endian three
      (request (53 ∷ 1 ∷ 3 ∷ 255 ∷ []))
      (decode_options big_endian three (request (53 ∷ 1 ∷ 3 ∷ 255 ∷ [])))
decode_options-Answers_example =
    decode_options-Answers big_endian three (request (53 ∷ 1 ∷ 3 ∷ 255 ∷ []))
