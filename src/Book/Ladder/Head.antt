-- ===== src/Book/Ladder/Head.antt =====
-- Taking out the first order of the best level, while others are behind it.
use low_latency_trading_engi.Base.{
  ℕ, ◌≡◌, refl, ◌≢◌, false, some, List, [], ◌∷◌, All, arith, ok, fun_ext,
}
use mathlib.Core.Path.{subst₂}
use low_latency_trading_engi.Types.{Side}
use low_latency_trading_engi.Ring.{has, IsRing, has-last, last}
use low_latency_trading_engi.Book.{State, order_at}
use low_latency_trading_engi.Book.Orders.{remove_order}
use low_latency_trading_engi.Book.Queue.{IsQueue, after_unlink_head, after_unlink_head-IsQueue}
use low_latency_trading_engi.Book.Removal.{
  remove_head_runs, after_head, unmap_and_free, forget-IsQueue,
}
use low_latency_trading_engi.Book.Ladder.{Level, IsOrderOf, IsBookSide, places}
use low_latency_trading_engi.Book.Ladder.Frame.{
  level_of, All-has, SameLevel, IsOrderOf-moved, levels-frame,
}

module _ (s : State) (sd : Side) (lp x y : ℕ) (ys : List ℕ) (v : IsQueue s lp x (y ∷ ys))
    (orders : All (IsOrderOf s sd lp) (x ∷ y ∷ ys)) where
  abbrev removed : State
  removed =
      unmap_and_free (after_head s lp x y ys v orders.0.0) (order_at s x).client_id
        (order_at s x).client_order_id x

  last_order : IsOrderOf s sd lp (last y ys)
  last_order = All-has (IsOrderOf s sd lp) (y ∷ ys) orders.1 (last y ys) (has-last y ys)

  others_apart : (l q : ℕ) → l ≢ lp → level_of s q ≡ some l → (q ≢ x) × (q ≢ y) × (q ≢ last y ys)
  others_apart l q ne e = (
    λ same. ne (cc (orders.0.0.level)),
    λ same. ne (cc (orders.1.0.0.level)),
    λ same. ne (cc (last_order.0.level)),
  )

  removed-SameLevel : (l : ℕ) → l ≢ lp → SameLevel s removed l
  unfolding after_unlink_head
  removed-SameLevel l ne = record {
    blocks = λ q e used. let (a, b, c) = others_apart l q ne e in ground (arith, a, b, c);
    first = ground (arith, ne);
    mark = ground (arith, ne);
    prices = λ k e. e;
    orders_size = refl;
    levels_size = refl;
  }

  -- An order that stays at the level.
  stays : (q : ℕ) → q ≢ x → IsOrderOf s sd lp q → IsOrderOf removed sd lp q
  unfolding after_unlink_head
  stays q ne r = IsOrderOf-moved s removed sd lp q (ground arith) (ground (arith, ne)) refl refl r

  all_stay :
      (xs : List ℕ)
      → has x xs ≡ false
      → All (IsOrderOf s sd lp) xs
      → All (IsOrderOf removed sd lp) xs
  all_stay [] out h = tt
  all_stay (q ∷ xs) out h = (stays q (λ e. ground arith) h.0, all_stay xs (ground arith) h.1)

-- On a whole side: the level keeps its place, and no other level is touched.
pub remove_order-head :
    (s : State) (sd : Side) (lp x y : ℕ) (ys : List ℕ) (ls : List Level)
    → IsBookSide s sd (record { at = lp; head = x; behind = y ∷ ys } ∷ ls)
    → (s' : State) × (remove_order x s ≡ ok (tt, s'))
      × IsBookSide s' sd (record { at = lp; head = y; behind = ys } ∷ ls)
unfolding after_unlink_head
remove_order-head s sd lp x y ys ls v =
    let q = v.levels.0.queue in
    let os = v.levels.0.orders in
    let s' : State = removed s sd lp x y ys q os in
    (
      s',
      remove_head_runs s lp x y ys q os.0.0,
      record {
        linked = (
          v.linked.0,
          subst₂ (λ n p. IsRing n p lp (places ls)) (fun_ext λ z. ground arith)
              (fun_ext λ z. ground arith) v.linked.1,
        );
        levels = (
          record {
            queue =
                forget-IsQueue (after_head s lp x y ys q os.0.0) _ _ x
                  (after_unlink_head-IsQueue s lp x y ys q);
            orders = all_stay s sd lp x y ys q os (y ∷ ys) q.ring.distinct.0 os.1;
            inside = v.levels.0.inside;
            used = ground (arith, v.levels.0.used);
          },
          levels-frame s s' sd ls
              (λ l h.
                removed-SameLevel s sd lp x y ys q os l
                  (λ e. let out = v.linked.1.distinct.0 in cc))
              v.levels.1,
        );
      },
    )
