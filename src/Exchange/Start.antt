-- ===== src/Exchange/Start.antt =====
-- What becomes of `main` of exchange/exchange_main.cpp.
use low_latency_trading_engi.Base.{
  ℕ, ◌≡◌, refl, ap, ◌∙◌, ◌⊎◌, inl, inr, Bool, true, false, List, ◌∷◌, Fault, ok, err, bind_result,
  M, ◌>>=◌, ℤ, pos,
}
use low_latency_trading_engi.Logger.{open_logger}
use low_latency_trading_engi.Engine
use low_latency_trading_engi.Engine.{MatchingEngine}
use low_latency_trading_engi.Sockets.{Os}
use low_latency_trading_engi.Sockets.Opening.{mcast_init-fails}
use low_latency_trading_engi.Sockets.{mcast_init}
use low_latency_trading_engi.Exchange.Main.{
  Machine, made_engine, Memory, with_logger, opened, started, new_engine, new_publisher, main,
  inc_pub_ip, local_iface,
}

-- A step that returns or fails an assertion, before one that fails an assertion.
abbrev MayFail : {S A : Type 0} → M S A → Type 0
MayFail {S} {A} m =
    (s : S) → ((a : A) × (s' : S) × (m s ≡ ok (a, s'))) ⊎ (m s ≡ err Fault.assert_failed)

then-fails :
    {S A B : Type 0} (m : M S A) (k : A → M S B)
    → MayFail m
    → ((a : A) (s : S) → k a s ≡ err Fault.assert_failed)
    → (s : S) → (m >>= k) s ≡ err Fault.assert_failed
then-fails m k h fails s = elim (h s) [
  | inl (a, s', e) ↦ ap (λ r. bind_result r (λ p. k p.0 p.1)) e ∙ fails a s'
  | inr e ↦ ap (λ r. bind_result r (λ p. k p.0 p.1)) e
]

fails-then :
    {S A B : Type 0} (m : M S A) (k : A → M S B) (s : S)
    → m s ≡ err Fault.assert_failed
    → (m >>= k) s ≡ err Fault.assert_failed
fails-then m k s e = ap (λ r. bind_result r (λ p. k p.0 p.1)) e

MayFail-then :
    {S A B : Type 0} (m : M S A) (k : A → M S B)
    → MayFail m
    → ((a : A) → MayFail (k a))
    → MayFail (m >>= k)
MayFail-then m k h h' s = elim (h s) [
  | inl (a, s', e) ↦ elim (h' a s') [
    | inl (b, t, e') ↦ inl (b, t, ap (λ r. bind_result r (λ p. k p.0 p.1)) e ∙ e')
    | inr e' ↦ inr (ap (λ r. bind_result r (λ p. k p.0 p.1)) e ∙ e')
  ]
  | inr e ↦ inr (ap (λ r. bind_result r (λ p. k p.0 p.1)) e)
]

module _ {A W : Type 0} (os : Os A W) where
  with_logger-MayFail : (log : Bool × Bool) → MayFail (with_logger os log)
  unfolding open_logger
  with_logger-MayFail (true, true) w = inl (tt, w, refl)
  with_logger-MayFail (true, false) w = inr refl
  with_logger-MayFail (false, b) w = inr refl

  engine_started-MayFail :
      (thread_made : Bool) (e : MatchingEngine) → MayFail (started os (Engine.start thread_made) e)
  unfolding Engine.start
  engine_started-MayFail true e w = inl (_, w, refl)
  engine_started-MayFail false e w = inr refl

  new_engine-MayFail : (m : Machine) (mem : Memory) → MayFail (new_engine os m mem)
  unfolding new_engine Engine.start
  new_engine-MayFail m mem =
      MayFail-then (with_logger os m.engine_log) _ (with_logger-MayFail m.engine_log)
        (λ u. engine_started-MayFail m.engine_thread (made_engine mem))

  module _ (m : Machine) (mem : Memory)
      (succeeds : (fd : ℤ) (rp : A) (v : W) → (os.connect fd rp v).0 ≡ pos 0)
      (some_address : (host : List ℕ) (port : ℤ) (v : W)
        → (rp : A) × (rps : List A) × ((os.get_addr_info host port false true v).0.1
            ≡ rp ∷ rps)) where
    new_publisher-fails : (w : W) → new_publisher os m w ≡ err Fault.assert_failed
    unfolding new_publisher
    new_publisher-fails =
        then-fails (with_logger os m.publisher_log) _ (with_logger-MayFail m.publisher_log) (λ u w.
          fails-then (opened os publisher_socket) _ w (
            fails-then publisher_socket _ w (
              mcast_init-fails os inc_pub_ip local_iface (pos 20001) w succeeds
                (λ host v. some_address host (pos 20001) v))))
      where
        publisher_socket : M W ℤ
        publisher_socket = mcast_init os inc_pub_ip local_iface (pos 20001) false

-- Where `connect` succeeds and `getaddrinfo` gives an address, `main` never gets as far as to an
-- exchange: whatever files and threads are made, an assertion ends the process, at the latest
-- that on the publisher's multicast socket.
pub main-fails :
    {A W : Type 0} (os : Os A W) (m : Machine) (mem : Memory) (w : W)
    → ((fd : ℤ) (rp : A) (v : W) → (os.connect fd rp v).0 ≡ pos 0)
    → ((host : List ℕ) (port : ℤ) (v : W)
        → (rp : A) × (rps : List A) × ((os.get_addr_info host port false true v).0.1 ≡ rp ∷ rps))
    → main os m mem w ≡ err Fault.assert_failed
unfolding main
main-fails os m mem w succeeds some_address =
    then-fails (with_logger os m.main_log) _ (with_logger-MayFail os m.main_log)
      (λ u. then-fails (new_engine os m mem) _ (new_engine-MayFail os m mem) (λ e w2.
        fails-then (new_publisher os m) _ w2
          (new_publisher-fails os m mem succeeds some_address w2)))
      w
