-- ===== src/Sockets.antt =====
-- `createSocket` of common/socket_utils.h and the functions of common/mcast_socket.cpp and
-- common/tcp_socket.cpp that open sockets with it. The calls of the operating system are an
-- interface, over a state `W` of its own and its address structures `A`.
pub mod Opening
pub mod Mcast
pub mod Tests
use low_latency_trading_engi.Base.{
  ℕ, ◌==◌, Bool, true, false, not, ◌&&◌, Option, none, some, List, [], ◌∷◌, ok, M, ◌>>=◌, ◌>>◌,
  pure, assert, ℤ, pos, negsuc, eqb_ℤ, if◌then◌else◌,
}

-- Text is a list of character codes.
pub record SocketCfg : Type 0 where
  pub ip : List ℕ
  pub iface : List ℕ
  pub port : ℤ
  pub is_udp : Bool
  pub is_listening : Bool
  pub needs_so_timestamp : Bool

-- An entry of `getifaddrs`: its name, whether it has an IPv4 address, and what `getnameinfo` writes
-- for that.
pub record Iface : Type 0 where
  pub name : List ℕ
  pub has_inet : Bool
  pub numeric_host : List ℕ

pub data SockOpt : Type 0 where
  tcp_nodelay so_timestamp so_reuseaddr : SockOpt
  ip_add_membership : List ℕ → SockOpt

abbrev pub Call : Type 0 → Type 0
Call W = W → ℤ × W

-- The operating system. A number that a call returns is what the C function returns.
pub record Os (A W : Type 0) : Type 0 where
  pub get_interfaces : W → Option (List Iface) × W
  pub get_addr_info : (ip : List ℕ) → (port : ℤ) → (passive udp : Bool) → W → (ℤ × List A) × W
  pub make_socket : A → Call W
  pub fcntl_get : ℤ → Call W
  pub fcntl_set : ℤ → ℤ → Call W
  pub is_non_blocking : ℤ → Bool
  pub with_non_blocking : ℤ → ℤ
  pub set_sock_opt : ℤ → SockOpt → Call W
  pub connect : ℤ → A → Call W
  pub bind : ℤ → (any_address : Bool) → (port : ℤ) → A → Call W
  pub listen_on : ℤ → (backlog : ℕ) → Call W

abbrev pub max_tcp_server_backlog : ℕ
max_tcp_server_backlog = 1024

abbrev pub call : {W : Type 0} → Call W → M W ℤ
call c w = ok (c w)

abbrev pub is_failure : ℤ → Bool
is_failure z = eqb_ℤ z (negsuc 0)

abbrev pub is_zero : ℤ → Bool
is_zero z = eqb_ℤ z (pos 0)

abbrev pub same_text : List ℕ → List ℕ → Bool
same_text [] [] = true
same_text [] (y ∷ ys) = false
same_text (x ∷ xs) [] = false
same_text (x ∷ xs) (y ∷ ys) = (x == y) && same_text xs ys

-- The loop of `getIfaceIP`, and what it leaves of the buffer when there is no such interface.
unfoldable pub find_iface : List ℕ → List Iface → List ℕ
find_iface iface [] = []
find_iface iface (x ∷ xs) =
    let rest = find_iface iface xs in
    if x.has_inet && same_text iface x.name then x.numeric_host else rest

unfoldable pub get_iface_ip : List ℕ → Option (List Iface) → List ℕ
get_iface_ip iface none = []
get_iface_ip iface (some ifaces) = find_iface iface ifaces

module _ {A W : Type 0} (os : Os A W) where
  unfoldable pub set_non_blocking : ℤ → M W Bool
  set_non_blocking fd = do
    flags ← call (os.fcntl_get fd)
    if os.is_non_blocking flags
        then pure true
        else (do r ← call (os.fcntl_set fd (os.with_non_blocking flags)); pure (not (is_failure r)))

  unfoldable pub set_option : ℤ → SockOpt → M W Bool
  set_option fd option = do r ← call (os.set_sock_opt fd option); pure (not (is_failure r))

  abbrev pub disable_nagle : ℤ → M W Bool
  disable_nagle fd = set_option fd SockOpt.tcp_nodelay

  abbrev pub set_so_timestamp : ℤ → M W Bool
  set_so_timestamp fd = set_option fd SockOpt.so_timestamp

  abbrev pub join : ℤ → List ℕ → M W Bool
  join fd ip = set_option fd (SockOpt.ip_add_membership ip)

  -- What a listening socket needs.
  unfoldable pub prepare_listening : SocketCfg → ℤ → A → M W (Unit {0})
  prepare_listening cfg fd rp = do
    reused ← set_option fd SockOpt.so_reuseaddr
    assert reused
    bound ← call (os.bind fd cfg.is_udp cfg.port rp)
    assert (is_zero bound)
    if cfg.is_udp then pure tt else (do
      listening ← call (os.listen_on fd max_tcp_server_backlog)
      assert (is_zero listening))

  -- The assertion is on the number that `connect` returns.
  unfoldable pub connect_to : ℤ → A → M W (Unit {0})
  connect_to fd rp = do connected ← call (os.connect fd rp); assert (not (is_zero connected))

  -- The body of the loop over the addresses.
  unfoldable pub open_socket : SocketCfg → A → M W ℤ
  open_socket cfg rp = do
    fd ← call (os.make_socket rp)
    assert (not (is_failure fd))
    non_blocking ← set_non_blocking fd
    assert non_blocking
    no_delay ← if cfg.is_udp then pure true else disable_nagle fd
    assert no_delay
    if cfg.is_listening then prepare_listening cfg fd rp else connect_to fd rp
    stamped ← if cfg.needs_so_timestamp then set_so_timestamp fd else pure true
    assert stamped
    pure fd

  unfoldable pub open_each : SocketCfg → List A → ℤ → M W ℤ
  open_each cfg [] fd = pure fd
  open_each cfg (rp ∷ rps) fd = do fd' ← open_socket cfg rp; open_each cfg rps fd'

  unfoldable pub address_of : SocketCfg → W → List ℕ × W
  address_of cfg w = elim cfg.ip [
    | [] ↦ (get_iface_ip cfg.iface (os.get_interfaces w).0, (os.get_interfaces w).1)
    | c ∷ cs ↦ (c ∷ cs, w)
  ]

  unfoldable pub create_socket : SocketCfg → M W ℤ
  create_socket cfg w =
      let (ip, w1) = address_of cfg w in
      let (found, w2) = os.get_addr_info ip cfg.port cfg.is_listening cfg.is_udp w1 in
      (assert (is_zero found.0) >> open_each cfg found.1 (negsuc 0)) w2

  -- `McastSocket::init` and `TCPSocket::connect`.
  unfoldable pub mcast_init : (ip iface : List ℕ) → ℤ → (is_listening : Bool) → M W ℤ
  mcast_init ip iface port is_listening = create_socket (record {
    ip = ip;
    iface = iface;
    port = port;
    is_udp = true;
    is_listening = is_listening;
    needs_so_timestamp = false;
  })

  unfoldable pub tcp_connect : (ip iface : List ℕ) → ℤ → (is_listening : Bool) → M W ℤ
  tcp_connect ip iface port is_listening = create_socket (record {
    ip = ip;
    iface = iface;
    port = port;
    is_udp = false;
    is_listening = is_listening;
    needs_so_timestamp = true;
  })
