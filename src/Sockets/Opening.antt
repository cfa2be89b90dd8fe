-- ===== src/Sockets/Opening.antt =====
-- When `createSocket` of common/socket_utils.h gives a socket.
use low_latency_trading_engi.Base.{
  ℕ, ◌≡◌, refl, ap, ◌∙◌, Bool, true, false, not, List, ◌∷◌, Fault, ok, err, bind_result, M, ◌>>=◌,
  ◌>>◌, pure, assert, ℤ, pos, negsuc, if◌then◌else◌,
}
use low_latency_trading_engi.Sockets.{
  SocketCfg, SockOpt, Os, call, is_failure, is_zero, set_non_blocking, set_option, disable_nagle,
  prepare_listening, connect_to, open_socket, open_each, address_of, create_socket, mcast_init,
}

-- A run that fails whatever the assertion before it says.
assert-fails :
    {S B : Type 0} (b : Bool) (k : M S B) (s : S)
    → k s ≡ err Fault.assert_failed
    → (assert b >> k) s ≡ err Fault.assert_failed
assert-fails true k s h = h
assert-fails false k s h = refl

-- A call that returns, whatever comes after it failing.
abbrev Returns : {S A : Type 0} → M S A → S → Type 0
Returns {S} {A} m s = (a : A) × (s' : S) × (m s ≡ ok (a, s'))

>>=-fails :
    {S A B : Type 0} (m : M S A) (k : A → M S B) (s : S)
    → Returns m s
    → ((a : A) (s' : S) → k a s' ≡ err Fault.assert_failed)
    → (m >>= k) s ≡ err Fault.assert_failed
>>=-fails m k s (a, s', e) h = ap (λ r. bind_result r (λ p. k p.0 p.1)) e ∙ h a s'

module _ {A W : Type 0} (os : Os A W)
    (succeeds : (fd : ℤ) (rp : A) (w : W) → (os.connect fd rp w).0 ≡ pos 0) where
  connect_to-fails : (fd : ℤ) (rp : A) (w : W) → connect_to os fd rp w ≡ err Fault.assert_failed
  unfolding connect_to
  connect_to-fails fd rp w =
      ap (λ z. assert (not (is_zero z)) (os.connect fd rp w).1) (succeeds fd rp w)

  set_non_blocking-Returns : (fd : ℤ) (w : W) → Returns (set_non_blocking os fd) w
  unfolding set_non_blocking
  set_non_blocking-Returns fd w =
      let after = (os.fcntl_get fd w).1 in
      let set : M W Bool =
        call (os.fcntl_set fd (os.with_non_blocking (os.fcntl_get fd w).0)) >>= λ r.
        pure (not (is_failure r)) in
      elim (os.is_non_blocking (os.fcntl_get fd w).0)
        as (λ b. (a : Bool) × (w' : W) × ((if b then pure true else set) after ≡ ok (a, w'))) [
          | true ↦ (true, after, refl)
          | false ↦ (_, _, refl)
        ]

  no_delay-Returns :
      (cfg : SocketCfg) (fd : ℤ) (w : W)
      → Returns (if cfg.is_udp then pure true else disable_nagle os fd) w
  unfolding set_option
  no_delay-Returns cfg fd w =
      elim cfg.is_udp as (λ b. Returns (if b then pure true else disable_nagle os fd) w) [
        | true ↦ (true, w, refl)
        | false ↦ (_, _, refl)
      ]

  open_socket-fails :
      (cfg : SocketCfg) (rp : A) (w : W)
      → cfg.is_listening ≡ false
      → open_socket os cfg rp w ≡ err Fault.assert_failed
  unfolding open_socket
  open_socket-fails cfg rp w client =
      let fd = (os.make_socket rp w).0 in
      let stamp : M W ℤ =
        (if cfg.needs_so_timestamp then set_option os fd SockOpt.so_timestamp else pure true)
        >>= λ stamped. (assert stamped >> pure fd) in
      let connecting : M W ℤ =
        (if cfg.is_listening then prepare_listening os cfg fd rp else connect_to os fd rp)
        >> stamp in
      let undelayed : M W Bool = if cfg.is_udp then pure true else disable_nagle os fd in
      let settings : M W ℤ = undelayed >>= λ no_delay. (assert no_delay >> connecting) in
      let opening : M W ℤ =
        set_non_blocking os fd >>= λ non_blocking. (assert non_blocking >> settings) in
      let last : (w3 : W) → connecting w3 ≡ err Fault.assert_failed = λ w3.
        ap
          (λ (b : Bool).
            ((if b then prepare_listening os cfg fd rp else connect_to os fd rp) >> stamp) w3)
          client
        ∙ ap (λ r. bind_result r (λ p. stamp p.1)) (connect_to-fails fd rp w3) in
      assert-fails (not (is_failure fd)) opening (os.make_socket rp w).1 (
        >>=-fails (set_non_blocking os fd) (λ non_blocking. assert non_blocking >> settings) _
          (set_non_blocking-Returns fd _)
          (λ non_blocking w2. assert-fails non_blocking settings w2 (
            >>=-fails undelayed (λ no_delay. assert no_delay >> connecting) w2
              (no_delay-Returns cfg fd w2)
              (λ no_delay w3. assert-fails no_delay connecting w3 (last w3)))))

  create_socket-fails :
      (cfg : SocketCfg) (w : W)
      → cfg.is_listening ≡ false
      → ((ip : List ℕ) (v : W)
          → (rp : A) × (rps : List A) × ((os.get_addr_info ip cfg.port cfg.is_listening cfg.is_udp
                v).0.1
              ≡ rp ∷ rps))
      → create_socket os cfg w ≡ err Fault.assert_failed
  unfolding create_socket open_each
  create_socket-fails cfg w client some_address =
      let ip = (address_of os cfg w).0 in
      let w1 = (address_of os cfg w).1 in
      let found = os.get_addr_info ip cfg.port cfg.is_listening cfg.is_udp w1 in
      let (rp, rps, e) = some_address ip w1 in
      assert-fails (is_zero found.0.0) _ found.1 (
        ap (λ addresses. open_each os cfg addresses (negsuc 0) found.1) e
        ∙ ap (λ r. bind_result r (λ p. open_each os cfg rps p.0 p.1))
            (open_socket-fails cfg rp found.1 client))

-- Where `connect` succeeds, which it tells by returning 0, and `getaddrinfo` gives an address: a
-- multicast socket that is to send and not to listen is never made; `McastSocket::init` ends the process.
pub mcast_init-fails :
    {A W : Type 0} (os : Os A W) (ip iface : List ℕ) (port : ℤ) (w : W)
    → ((fd : ℤ) (rp : A) (v : W) → (os.connect fd rp v).0 ≡ pos 0)
    → ((host : List ℕ) (v : W)
        → (rp : A) × (rps : List A) × ((os.get_addr_info host port false true v).0.1 ≡ rp ∷ rps))
    → mcast_init os ip iface port false w ≡ err Fault.assert_failed
unfolding mcast_init
mcast_init-fails os ip iface port w succeeds some_address =
    create_socket-fails os succeeds _ w refl some_address
