-- ===== src/Book/Ladder/Frame.antt =====
-- A level and a side are not touched by writes to other orders and levels.
use low_latency_trading_engi.Base.{
  ℕ, ◌≡◌, sym, ap, ◌∙◌, subst, true, false, Option, some, List, [], ◌∷◌, All, arith, ◌==◌, ==_iff,
  Bool-cases, inl, inr,
}
use low_latency_trading_engi.Types.{Side}
use low_latency_trading_engi.Ring.{has, Links-frame}
use low_latency_trading_engi.Book.{
  State, order_at, level_at, best_of, price_to_index, in_client_map,
}
use low_latency_trading_engi.Book.Queue.{payload, next_of, prev_of}
use low_latency_trading_engi.Book.Ladder.{
  Level, next_level, prev_level, IsOrderOf, IsLevel, IsBookSide, places,
}

-- The level to which the price of an order belongs.
abbrev pub level_of : State → ℕ → Option ℕ
level_of s q = s.price_orders_at_price (price_to_index (order_at s q).price)

pub All-has : (P : ℕ → Type 0) (xs : List ℕ) → All P xs → (z : ℕ) → has z xs ≡ true → P z
All-has P [] h z e = absurd (cc)
All-has P (x ∷ xs) h z e = elim (Bool-cases (z == x)) [
  | inl same ↦ subst P (sym ((==_iff z x).0 same)) h.0
  | inr other ↦ All-has P xs h.1 z (rw other at e)
]

-- Two states agree on the level at `l` and on all that rests there.
pub record SameLevel (s s' : State) (l : ℕ) : Type 0 where
  pub blocks :
      (q : ℕ)
      → level_of s q ≡ some l
      → (s.order_pool.store q).is_free ≡ false
      → s'.order_pool.store q ≡ s.order_pool.store q
  pub first : (level_at s' l).first_me_order ≡ (level_at s l).first_me_order
  pub mark : (s'.orders_at_price_pool.store l).is_free ≡ (s.orders_at_price_pool.store l).is_free
  pub prices : (k : ℕ) → s.price_orders_at_price k ≡ some l → s'.price_orders_at_price k ≡ some l
  pub orders_size : s'.order_pool.store_size ≡ s.order_pool.store_size
  pub levels_size : s'.orders_at_price_pool.store_size ≡ s.orders_at_price_pool.store_size

module _ (s s' : State) (sd : Side) where
  IsOrderOf-frame : (l q : ℕ) → SameLevel s s' l → IsOrderOf s sd l q → IsOrderOf s' sd l q
  IsOrderOf-frame l q f (r, side) =
      let same = f.blocks q r.level r.used in
      let object : order_at s' q ≡ order_at s q = ap (λ b. b.object) same in
      (
        record {
          level =
              subst (λ o. s'.price_orders_at_price (price_to_index o.price) ≡ some l) (sym object)
                (f.prices (price_to_index (order_at s q).price) r.level);
          mapped =
              subst (λ o. in_client_map o.client_id o.client_order_id ≡ true) (sym object) r.mapped;
          inside = rw f.orders_size r.inside;
          used = ap (λ b. b.is_free) same ∙ r.used;
        },
        ap (λ o. o.side) object ∙ side,
      )

  -- An order whose place in its queue may change.
  pub IsOrderOf-moved :
      (l q : ℕ)
      → payload (order_at s' q) ≡ payload (order_at s q)
      → (s'.order_pool.store q).is_free ≡ (s.order_pool.store q).is_free
      → s'.price_orders_at_price ≡ s.price_orders_at_price
      → s'.order_pool.store_size ≡ s.order_pool.store_size
      → IsOrderOf s sd l q
      → IsOrderOf s' sd l q
  IsOrderOf-moved l q same mark prices size (r, side) = (
    record {
      level =
          subst (λ o. s'.price_orders_at_price (price_to_index o.price) ≡ some l) (sym same)
            (rw prices r.level);
      mapped = subst (λ o. in_client_map o.client_id o.client_order_id ≡ true) (sym same) r.mapped;
      inside = rw size r.inside;
      used = mark ∙ r.used;
    },
    ap (λ o. o.side) same ∙ side,
  )

  All-frame :
      (l : ℕ) (xs : List ℕ)
      → SameLevel s s' l
      → All (IsOrderOf s sd l) xs
      → All (IsOrderOf s' sd l) xs
  All-frame l [] f h = tt
  All-frame l (x ∷ xs) f h = (IsOrderOf-frame l x f h.0, All-frame l xs f h.1)

  pub IsLevel-frame : (l : Level) → SameLevel s s' l.at → IsLevel s sd l → IsLevel s' sd l
  IsLevel-frame l f v = record {
    queue = record {
      first = f.first ∙ v.queue.first;
      ring = record {
        links =
            Links-frame (next_of s) (prev_of s) (next_of s') (prev_of s') l.head l.behind l.head
              v.queue.ring.links (λ z h. ap (λ b. b.object.next_order) (block z h))
              (λ z h. ap (λ b. b.object.prev_order) (block z (ground arith)))
              (ap (λ b. b.object.prev_order) (block l.head (ground arith)));
        distinct = v.queue.ring.distinct;
      };
    };
    orders = All-frame l.at (l.head ∷ l.behind) f v.orders;
    inside = rw f.levels_size v.inside;
    used = f.mark ∙ v.used;
  }
    where
      block :
          (z : ℕ) → has z (l.head ∷ l.behind) ≡ true → s'.order_pool.store z ≡ s.order_pool.store z
      block z h =
          let rests = (All-has (IsOrderOf s sd l.at) (l.head ∷ l.behind) v.orders z h).0 in
          f.blocks z rests.level rests.used

  -- The levels behind the first one of a side.
  pub levels-frame :
      (ls : List Level)
      → ((l : ℕ) → has l (places ls) ≡ true → SameLevel s s' l)
      → All (IsLevel s sd) ls
      → All (IsLevel s' sd) ls
  levels-frame [] f h = tt
  levels-frame (l ∷ ls) f h =
      (IsLevel-frame l (f l.at (ground arith)) h.0, levels-frame ls (λ z e. f z (ground arith)) h.1)

  -- A side of which all levels and their links are kept.
  pub IsBookSide-frame :
      (ls : List Level)
      → ((l : ℕ) → has l (places ls) ≡ true → SameLevel s s' l)
      → ((l : ℕ) → has l (places ls) ≡ true → next_level s' l ≡ next_level s l)
      → ((l : ℕ) → has l (places ls) ≡ true → prev_level s' l ≡ prev_level s l)
      → best_of s' sd ≡ best_of s sd
      → IsBookSide s sd ls
      → IsBookSide s' sd ls
  IsBookSide-frame [] f hn hp best v = record { linked = best ∙ v.linked; levels = tt }
  IsBookSide-frame (l ∷ ls) f hn hp best v = record {
    linked = (
      best ∙ v.linked.0,
      record {
        links =
            Links-frame (next_level s) (prev_level s) (next_level s') (prev_level s') l.at
              (places ls) l.at v.linked.1.links hn (λ z h. hp z (ground arith))
              (hp l.at (ground arith));
        distinct = v.linked.1.distinct;
      },
    );
    levels = levels-frame (l ∷ ls) f v.levels;
  }
