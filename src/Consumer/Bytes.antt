-- ===== src/Consumer/Bytes.antt =====
-- `recvCallback` of trading/market_data/market_data_consumer.cpp over the bytes of the incremental
-- stream: the updates are found however the stream is cut into pieces.
use low_latency_trading_engi.Base.{
  ℕ, ◌+◌, ◌^◌, ◌<◌, ◌≡◌, refl, ap, ◌∙◌, Bool, false, List, [], ◌∷◌, ◌++◌, ok, bind_result, M, ◌>>◌,
  pure, if◌then◌else◌, length, take, drop, All, arith,
}
use low_latency_trading_engi.LfQueue.{write_all}
use low_latency_trading_engi.Messages.{MeMarketUpdate, MdpMarketUpdate}
use low_latency_trading_engi.Frames.{
  IsFraming, joined, bind-ext, loop-cut, loop-frames, handle_frames,
}
use low_latency_trading_engi.Consumer.{
  MarketDataConsumer, handle_message, handle_all, update_bytes, recv_loop, recv_callback,
}
use low_latency_trading_engi.Consumer.InOrder.{stream, handle_all-stream}

abbrev pub IsUpdate : List ℕ → Type 0
IsUpdate p = length p ≡ update_bytes

module _ (decode : List ℕ → MdpMarketUpdate) (joins is_snapshot : Bool) where
  abbrev pub handle : List ℕ → M MarketDataConsumer (Unit {0})
  handle p = handle_message joins is_snapshot (decode p)

  abbrev pub loop : ℕ → List ℕ → M MarketDataConsumer (List ℕ)
  loop = recv_loop decode joins is_snapshot

  abbrev body : ℕ → List ℕ → M MarketDataConsumer (List ℕ)
  body fuel bytes = do handle (take update_bytes bytes); loop fuel (drop update_bytes bytes)

  pub recv_loop-IsFraming : IsFraming update_bytes handle loop
  unfolding recv_loop
  recv_loop-IsFraming = record {
    some_bytes = omega arith;
    stuck = λ bytes s. refl;
    whole = λ fuel bytes s h. ap (λ (b : Bool). (if b then body fuel bytes else pure bytes) s) h;
    short = λ fuel bytes s h. ap (λ (b : Bool). (if b then body fuel bytes else pure bytes) s) h;
  }

  -- The messages of the given frames, each with the stream that it came by.
  abbrev pub messages : List (List ℕ) → List (Bool × MdpMarketUpdate)
  messages [] = []
  messages (p ∷ ps) = (is_snapshot, decode p) ∷ messages ps

  frames-messages :
      (ps : List (List ℕ)) (c : MarketDataConsumer)
      → handle_frames update_bytes handle loop recv_loop-IsFraming ps c
        ≡ handle_all joins (messages ps) c
  unfolding handle_all
  frames-messages [] c = refl
  frames-messages (p ∷ ps) c = bind-ext (handle p c) _ _ (λ r. frames-messages ps r.1)

  recv_loop-messages :
      (ps : List (List ℕ)) (tail : List ℕ) (c : MarketDataConsumer)
      → All IsUpdate ps
      → length tail < update_bytes
      → loop (length (joined ps ++ tail) + 1) (joined ps ++ tail) c
        ≡ bind_result (handle_all joins (messages ps) c) (λ r. ok (tail, r.1))
  recv_loop-messages ps tail c whole short =
      loop-frames update_bytes handle loop recv_loop-IsFraming (length (joined ps ++ tail) + 1) ps
        tail c whole short (omega arith)
      ∙ ap (λ r. bind_result r (λ x. ok (tail, x.1))) (frames-messages ps c)

module _ (decode : List ℕ → MdpMarketUpdate) (joins : Bool) where
  -- Two deliveries of bytes of the incremental stream one after another, the second appended to what
  -- the first call has left, have the same effect as one delivery of all the bytes.
  pub incremental-append :
      (before after : List ℕ) (c : MarketDataConsumer)
      → recv_callback decode joins false (before ++ after) c
        ≡ bind_result
            (recv_callback decode joins false before c)
            (λ r. recv_callback decode joins false (r.0 ++ after) r.1)
  unfolding recv_callback
  incremental-append before after c =
      loop-cut update_bytes (handle decode joins false) (loop decode joins false)
        (recv_loop-IsFraming decode joins false) before after c

  -- While nothing is being recovered: bytes of the incremental stream that hold whole updates,
  -- numbered one after another from the expected number on, and less than one more, pass every
  -- update on once, in order, move the expected number behind them, and leave the other bytes.
  pub incremental-stream :
      (ps : List (List ℕ)) (tail : List ℕ) (us : List MeMarketUpdate) (n : ℕ)
      (c : MarketDataConsumer)
      → All IsUpdate ps
      → length tail < update_bytes
      → messages decode joins false ps ≡ stream n us
      → c.in_recovery ≡ false
      → c.next_exp_inc_seq_num ≡ n
      → n + length us < 2 ^ 64
      → recv_callback decode joins false (joined ps ++ tail) c
        ≡ ok (
          tail,
          record c {
            next_exp_inc_seq_num = n + length us;
            incoming_md_updates = write_all c.incoming_md_updates us;
          },
        )
  unfolding recv_callback
  incremental-stream ps tail us n c whole short same calm e b =
      recv_loop-messages decode joins false ps tail c whole short
      ∙ ap (λ ms. bind_result (handle_all joins ms c) (λ r. ok (tail, r.1))) same
      ∙ ap (λ r. bind_result r (λ x. ok (tail, x.1))) (handle_all-stream joins us n c calm e b)
