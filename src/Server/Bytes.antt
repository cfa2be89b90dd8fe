-- ===== src/Server/Bytes.antt =====
-- `recvCallback` of exchange/order_server/order_server.h over the bytes that a socket delivers: the
-- requests are found however TCP cuts the stream into pieces.
use low_latency_trading_engi.Base.{
  sym, append_assoc, ℕ, suc, ◌+◌, ◌<◌, ◌≡◌, refl, ap, ◌∙◌, Bool, true, false, List, [], ◌∷◌, ◌++◌,
  ok, bind_result, map, M, ◌>>◌, pure, leb, if◌then◌else◌, length, take, drop, All, arith,
}
use low_latency_trading_engi.Messages.{OmClientRequest}
use low_latency_trading_engi.Frames.{
  IsFraming, joined, bind-ext, loop-frames, handle_frames, bind_assoc,
}
use low_latency_trading_engi.Sequencer.{Nanos}
use low_latency_trading_engi.Server.{
  OrderServer, handle_request, request_bytes, recv_loop, recv_callback,
}

module _ (decode : List ℕ → OmClientRequest) (socket : ℕ) (rx_time : Nanos) where
  -- A round with a whole request at hand, and one without.
  recv_loop-whole :
      (fuel : ℕ) (bytes : List ℕ) (s : OrderServer)
      → leb request_bytes (length bytes) ≡ true
      → recv_loop decode (suc fuel) socket rx_time bytes s
        ≡ bind_result
            (handle_request socket rx_time (decode (take request_bytes bytes)) s)
            (λ r. recv_loop decode fuel socket rx_time (drop request_bytes bytes) r.1)
  unfolding recv_loop
  recv_loop-whole fuel bytes s h =
      ap
        (λ (b : Bool).
          (if b
              then (do
                handle_request socket rx_time (decode (take request_bytes bytes))
                recv_loop decode fuel socket rx_time (drop request_bytes bytes))
              else pure bytes)
            s)
        h

  recv_loop-short :
      (fuel : ℕ) (bytes : List ℕ) (s : OrderServer)
      → leb request_bytes (length bytes) ≡ false
      → recv_loop decode (suc fuel) socket rx_time bytes s ≡ ok (bytes, s)
  unfolding recv_loop
  recv_loop-short fuel bytes s h =
      ap
        (λ (b : Bool).
          (if b
              then (do
                handle_request socket rx_time (decode (take request_bytes bytes))
                recv_loop decode fuel socket rx_time (drop request_bytes bytes))
              else pure bytes)
            s)
        h

  abbrev handle : List ℕ → M OrderServer (Unit {0})
  handle p = handle_request socket rx_time (decode p)

  abbrev loop : ℕ → List ℕ → M OrderServer (List ℕ)
  loop fuel = recv_loop decode fuel socket rx_time

  recv_loop-IsFraming : IsFraming request_bytes handle loop
  unfolding recv_loop
  recv_loop-IsFraming = record {
    some_bytes = omega arith;
    stuck = λ bytes s. refl;
    whole = recv_loop-whole;
    short = recv_loop-short;
  }

  -- Requests handled one after another.
  abbrev pub handle_requests : List OmClientRequest → M OrderServer (Unit {0})
  handle_requests [] s = ok (tt, s)
  handle_requests (r ∷ rs) s =
      bind_result (handle_request socket rx_time r s) (λ x. handle_requests rs x.1)

  abbrev pub IsRequest : List ℕ → Type 0
  IsRequest p = length p ≡ request_bytes

  frames-requests :
      (ps : List (List ℕ)) (s : OrderServer)
      → handle_frames request_bytes handle loop recv_loop-IsFraming ps s
        ≡ handle_requests (map decode ps) s
  frames-requests [] s = refl
  frames-requests (p ∷ ps) s = bind-ext (handle p s) _ _ (λ r. frames-requests ps r.1)

  -- For bytes that are some whole requests and less than one more, a call handles the requests one
  -- after another, in order, and keeps the rest of the bytes: it always has rounds enough.
  pub recv_callback-requests :
      (ps : List (List ℕ)) (tail : List ℕ) (s : OrderServer)
      → All IsRequest ps
      → length tail < request_bytes
      → recv_callback decode socket rx_time (joined ps ++ tail) s
        ≡ bind_result (handle_requests (map decode ps) s) (λ r. ok (tail, r.1))
  unfolding recv_callback
  recv_callback-requests ps tail s whole short =
      loop-frames request_bytes handle loop recv_loop-IsFraming (length (joined ps ++ tail) + 1) ps
        tail s whole short (omega arith)
      ∙ ap (λ r. bind_result r (λ x. ok (tail, x.1))) (frames-requests ps s)

-- Two deliveries of bytes that one TCP socket makes one after another, each with its own time, the
-- second appended to what the first call has left, and cut within a request: the requests that are
-- whole in the first delivery are handled with its time, and the one that was cut and those behind it
-- with the time of the second, each once and in order; what is less than a request is kept.
pub recv_callback-cut :
    (decode : List ℕ → OmClientRequest) (socket : ℕ) (first second : Nanos) (ps : List (List ℕ))
    (begun ended : List ℕ) (qs : List (List ℕ)) (tail : List ℕ) (s : OrderServer)
    → All (λ p. length p ≡ request_bytes) ps
    → length begun < request_bytes
    → length (begun ++ ended) ≡ request_bytes
    → All (λ p. length p ≡ request_bytes) qs
    → length tail < request_bytes
    → bind_result
        (recv_callback decode socket first (joined ps ++ begun) s)
        (λ r. recv_callback decode socket second (r.0 ++ (ended ++ (joined qs ++ tail))) r.1)
      ≡ bind_result
          (bind_result (handle_requests decode socket first (map decode ps) s) (λ r.
            handle_requests decode socket second (decode (begun ++ ended) ∷ map decode qs) r.1))
          (λ r. ok (tail, r.1))
recv_callback-cut decode socket first second ps begun ended qs tail s whole part one others short =
    let next = λ (r : List ℕ × OrderServer).
      recv_callback decode socket second (r.0 ++ (ended ++ (joined qs ++ tail))) r.1 in
    let before = handle_requests decode socket first (map decode ps) s in
    let pieces : begun ++ (ended ++ (joined qs ++ tail)) ≡ joined ((begun ++ ended) ∷ qs) ++ tail =
      sym (append_assoc begun ended (joined qs ++ tail))
      ∙ sym (append_assoc (begun ++ ended) (joined qs) tail) in
    ap (λ x. bind_result x next) (recv_callback-requests decode socket first ps begun s whole part)
    ∙ bind_assoc before _ next
    ∙ bind-ext before _ _ (λ r.
      ap (λ bs. recv_callback decode socket second bs r.1) pieces
      ∙ recv_callback-requests decode socket second ((begun ++ ended) ∷ qs) tail r.1 (one, others)
          short)
    ∙ sym (bind_assoc before _ _)
