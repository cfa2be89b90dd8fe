-- ===== src/Engine/Rounds.antt =====
-- The loop of `MatchingEngine::run` of exchange/matcher/matching_engine.h over the requests that wait.
use low_latency_trading_engi.Base.{
  ℕ, zero, suc, ◌≤◌, ◌≡◌, refl, sym, ap, ◌∙◌, Bool, true, false, List, [], ◌∷◌, Option, none, some,
  Result, ok, M, bind_result, arith, ltb, length, inl, inr, Bool-cases, Result-cases, ok-injective,
  subst,
}
use low_latency_trading_engi.Types.{me_max_tickers}
use low_latency_trading_engi.LfQueue.{LfQueue, update_read_index}
use low_latency_trading_engi.LfQueue.Fifo.{IsValid, contents, read_cases}
use low_latency_trading_engi.Messages.{MeClientRequest}
use low_latency_trading_engi.Engine.{
  MatchingEngine, view, put_back, on_book, book_call, process_client_request, run_round, run,
}

-- Requests processed one after another, wherever they come from.
abbrev pub process_all : List MeClientRequest → M MatchingEngine (Unit {0})
process_all [] e = ok (tt, e)
process_all (r ∷ rs) e = bind_result (process_client_request r e) (λ x. process_all rs x.1)

abbrev pub with_queue : MatchingEngine → LfQueue MeClientRequest → MatchingEngine
with_queue e q = record e { incoming_requests = q }

-- A request leaves the queue of requests and the mark of the loop alone, and does not read them.
record Leaves (r : MeClientRequest) (e e' : MatchingEngine) : Type 0 where
  requests : e'.incoming_requests ≡ e.incoming_requests
  mark : e'.running ≡ e.running
  elsewhere :
      (q : LfQueue MeClientRequest)
      → process_client_request r (with_queue e q) ≡ ok (tt, with_queue e' q)

process-Leaves :
    (r : MeClientRequest) (e e' : MatchingEngine) (u : Unit {0})
    → process_client_request r e ≡ ok (u, e')
    → Leaves r e e'
unfolding process_client_request on_book
process-Leaves r e e' u run = elim (Bool-cases (ltb r.ticker_id me_max_tickers)) [
  | inr out ↦ absurd (cc (rw out at run))
  | inl inside ↦ elim (Result-cases (book_call r.kind r (view e r.ticker_id))) [
    | inr (f, failed) ↦ absurd (cc (rw (inside, failed) at run))
    | inl ((w, s), done) ↦
        let same : put_back e r.ticker_id s ≡ e' =
          ap (λ x. x.1) (ok-injective (rw (inside, done) at run)) in
        subst (Leaves r e) same
          (record { requests = refl; mark = refl; elsewhere = λ q. rw (inside, done) refl })
  ]
]

process_all-elsewhere :
    (rs : List MeClientRequest) (e e' : MatchingEngine) (q : LfQueue MeClientRequest)
    → process_all rs e ≡ ok (tt, e')
    → process_all rs (with_queue e q) ≡ ok (tt, with_queue e' q)
process_all-elsewhere [] e e' q run = ap (λ x. ok (tt, with_queue x.1 q)) (ok-injective run)
process_all-elsewhere (r ∷ rs) e e' q run = elim (Result-cases (process_client_request r e)) [
  | inr (f, failed) ↦
      absurd (cc (ap (λ y. bind_result y (λ x. process_all rs x.1)) (sym failed) ∙ run))
  | inl ((u, e1), first) ↦
      let l = process-Leaves r e e1 u first in
      ap (λ y. bind_result y (λ x. process_all rs x.1)) (l.elsewhere q)
      ∙ process_all-elsewhere rs e1 e' q
          (ap (λ y. bind_result y (λ x. process_all rs x.1)) (sym first) ∙ run)
]

abbrev finished :
    MatchingEngine → Result (LfQueue MeClientRequest) → Result (Unit {0} × MatchingEngine)
finished e r = bind_result r (λ q. ok (tt, with_queue e q))

abbrev finishes : Unit {0} × MatchingEngine → Result (Unit {0} × MatchingEngine)
finishes r = finished r.1 (update_read_index r.1.incoming_requests)

abbrev reads : MatchingEngine → Option ℕ → Result (Unit {0} × MatchingEngine)
reads e o = elim o [
  | none ↦ ok (tt, e)
  | some i ↦ bind_result (process_client_request (e.incoming_requests.store i) e) finishes
]

-- A round in which a request waits, and one in which none does.
run_round-processes :
    (e e1 : MatchingEngine) (r : MeClientRequest) (rs : List MeClientRequest) (u : Unit {0})
    → IsValid e.incoming_requests
    → contents e.incoming_requests ≡ r ∷ rs
    → process_client_request r e ≡ ok (u, e1)
    → e1.incoming_requests ≡ e.incoming_requests
    → (q : LfQueue MeClientRequest) × (run_round e ≡ ok (tt, with_queue e1 q))
      × (contents q ≡ rs)
      × IsValid q
unfolding run_round
run_round-processes e e1 r rs u v waiting run same = elim (read_cases e.incoming_requests v) [
  | inl (empty, none_left, bad) ↦ absurd (cc)
  | inr (i, q, found, read, split, v') ↦
      let first : e.incoming_requests.store i ≡ r = cc in
      let rest : contents q ≡ rs = cc in
      (
        q,
        ap (reads e) found
            ∙ ap (λ y. bind_result (process_client_request y e) finishes) first
            ∙ ap (λ y. bind_result y finishes) run
            ∙ ap (finished e1) (ap update_read_index same ∙ read),
        rest,
        v',
      )
]

run_round-idle :
    (e : MatchingEngine)
    → IsValid e.incoming_requests
    → contents e.incoming_requests ≡ []
    → run_round e ≡ ok (tt, e)
unfolding run_round
run_round-idle e v waiting = elim (read_cases e.incoming_requests v) [
  | inl (empty, none_left, bad) ↦ ap (reads e) none_left
  | inr (i, q, found, read, split, v') ↦ absurd (cc)
]

abbrev next_rounds : ℕ → Result (Unit {0} × MatchingEngine) → Result (Unit {0} × MatchingEngine)
next_rounds n r = bind_result r (λ x. run n x.1)

run-round :
    (n : ℕ) (e e1 : MatchingEngine)
    → e.running ≡ true
    → run_round e ≡ ok (tt, e1)
    → run (suc n) e ≡ run n e1
unfolding run
run-round n e e1 on round =
    ap
      (λ (b : Bool). elim b as (λ b. Result (Unit {0} × MatchingEngine)) [
        | true ↦ bind_result (run_round e) (λ r. run n r.1)
        | false ↦ ok (tt, e)
      ])
      on
    ∙ ap (next_rounds n) round

run-idle :
    (n : ℕ) (e : MatchingEngine)
    → e.running ≡ true
    → IsValid e.incoming_requests
    → contents e.incoming_requests ≡ []
    → run n e ≡ ok (tt, e)
unfolding run
run-idle zero e on v waiting = refl
run-idle (suc n) e on v waiting =
    run-round n e e on (run_round-idle e v waiting) ∙ run-idle n e on v waiting

-- The loop of an engine that runs, over a valid queue of requests that can be processed one after
-- another in the order in which they came: in as many rounds as there are requests, and in any more,
-- each is processed once, in that order, with the same effect on the books and on the queues of
-- responses and of updates, and no request is left waiting.
pub run-processes :
    (rs : List MeClientRequest) (e e' : MatchingEngine) (rounds : ℕ)
    → IsValid e.incoming_requests
    → contents e.incoming_requests ≡ rs
    → e.running ≡ true
    → length rs ≤ rounds
    → process_all rs e ≡ ok (tt, e')
    → (q : LfQueue MeClientRequest) × (run rounds e ≡ ok (tt, with_queue e' q))
      × (contents q ≡ [])
      × IsValid q
run-processes [] e e' rounds v waiting on enough all =
    let same : e ≡ e' = ap (λ x. x.1) (ok-injective all) in
    (
      e.incoming_requests,
      run-idle rounds e on v waiting ∙ ap (λ x. ok (tt, with_queue x e.incoming_requests)) same,
      waiting,
      v,
    )
run-processes (r ∷ rs) e e' zero v waiting on enough all = absurd (omega (arith, enough))
run-processes (r ∷ rs) e e' (suc n) v waiting on enough all =
    elim (Result-cases (process_client_request r e)) [
      | inr (f, failed) ↦
          absurd (cc (ap (λ y. bind_result y (λ x. process_all rs x.1)) (sym failed) ∙ all))
      | inl ((u, e1), first) ↦
          let l = process-Leaves r e e1 u first in
          let (q, round, rest, v') = run_round-processes e e1 r rs u v waiting first l.requests in
          let (q', rounds, done, v'') =
            run-processes rs (with_queue e1 q) (with_queue e' q) n v' rest (l.mark ∙ on)
              (omega (arith, enough))
              (process_all-elsewhere rs e1 e' q
                (ap (λ y. bind_result y (λ x. process_all rs x.1)) (sym first) ∙ all)) in
          (q', run-round n e (with_queue e1 q) on round ∙ rounds, done, v'')
    ]
