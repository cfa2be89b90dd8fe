-- ===== src/Book/Ladder/Splice.antt =====
-- A price level is put into the circle of a side: what `addOrdersAtPrice` of
-- exchange/matcher/me_order_book.h leaves behind on each of its ways.
use low_latency_trading_engi.Base.{
  ℕ, ◌≡◌, ◌≢◌, ◌<◌, refl, sym, ap, ◌∙◌, subst, true, false, Option, none, some, List, [], ◌∷◌, ◌++◌,
  All, arith, update, ==-self,
}
use mathlib.Core.Option.{some-injective, none-ne-some}
use low_latency_trading_engi.Types.{Side}
use low_latency_trading_engi.Ring.{has, IsRing, last}
use low_latency_trading_engi.Ring.Bounds.{Below}
use low_latency_trading_engi.Ring.Edit.{SameBut, append-IsRing, turn-IsRing}
use low_latency_trading_engi.Book.{
  State, order_at, level_at, best_of, price_to_index, in_client_map,
}
use low_latency_trading_engi.Book.Queue.{IsQueue}
use low_latency_trading_engi.Book.Ladder.{
  Level, next_level, prev_level, IsLevel, IsBookSide, places,
}
use low_latency_trading_engi.Book.Ladder.Frame.{SameLevel, levels-frame, IsBookSide-frame}

abbrev pub index_of : State → ℕ → ℕ
index_of s n = price_to_index (level_at s n).price

-- A level that is not yet in the circle, with one order at its price: nothing else is at the index
-- of the price.
pub record IsFresh (s : State) (sd : Side) (n p : ℕ) : Type 0 where
  pub side : (level_at s n).side ≡ sd
  pub free_index : s.price_orders_at_price (index_of s n) ≡ none
  pub queue : IsQueue s n p []
  pub order_index : price_to_index (order_at s p).price ≡ index_of s n
  pub order_side : (order_at s p).side ≡ sd
  pub mapped : in_client_map (order_at s p).client_id (order_at s p).client_order_id ≡ true
  pub order_inside : p < s.order_pool.store_size
  pub order_used : (s.order_pool.store p).is_free ≡ false
  pub inside : n < s.orders_at_price_pool.store_size
  pub used : (s.orders_at_price_pool.store n).is_free ≡ false

-- The level `n` stands between `l` and `x`, and is found by its price; all else is as it was.
pub record Spliced (s : State) (n l x : ℕ) (s' : State) : Type 0 where
  pub next_l : next_level s' l ≡ some n
  pub prev_n : prev_level s' n ≡ some l
  pub next_n : next_level s' n ≡ some x
  pub prev_x : prev_level s' x ≡ some n
  pub nexts : SameBut (next_level s) (next_level s') l n
  pub prevs : SameBut (prev_level s) (prev_level s') x n
  pub firsts : (z : ℕ) → (level_at s' z).first_me_order ≡ (level_at s z).first_me_order
  pub marks :
      (z : ℕ) → (s'.orders_at_price_pool.store z).is_free ≡ (s.orders_at_price_pool.store z).is_free
  pub orders : s'.order_pool ≡ s.order_pool
  pub prices : s'.price_orders_at_price ≡ update s.price_orders_at_price (index_of s n) (some n)
  pub levels_size : s'.orders_at_price_pool.store_size ≡ s.orders_at_price_pool.store_size

module _ (s s' : State) (sd : Side) (n p l x : ℕ) (f : IsFresh s sd n p)
    (c : Spliced s n l x s') where
  abbrev new_level : Level
  new_level = record { at = n; head = p; behind = [] }

  orders_same : (q : ℕ) → order_at s' q ≡ order_at s q
  orders_same q = ap (λ o. (o.store q).object) c.orders

  new-IsLevel : IsLevel s' sd new_level
  new-IsLevel = record {
    queue = record {
      first = c.firsts n ∙ f.queue.first;
      ring =
          subst
            (λ o.
              IsRing (λ z. (o.store z).object.next_order) (λ z. (o.store z).object.prev_order) p [])
            (sym c.orders) f.queue.ring;
    };
    orders = (
      (
        record {
          level = rw (c.prices, orders_same p, f.order_index, ==-self (index_of s n)) refl;
          mapped =
              subst (λ o. in_client_map o.client_id o.client_order_id ≡ true) (sym (orders_same p))
                f.mapped;
          inside = subst (λ o. p < o.store_size) (sym c.orders) f.order_inside;
          used = ap (λ o. (o.store p).is_free) c.orders ∙ f.order_used;
        },
        ap (λ o. o.side) (orders_same p) ∙ f.order_side,
      ),
      tt,
    );
    inside = subst (λ z. n < z) (sym c.levels_size) f.inside;
    used = c.marks n ∙ f.used;
  }

  pub spliced-SameLevel : (z : ℕ) → z ≢ n → SameLevel s s' z
  spliced-SameLevel z e = record {
    blocks = λ q at used. ap (λ o. o.store q) c.orders;
    first = c.firsts z;
    mark = c.marks z;
    prices = λ k at.
        let other : k ≢ index_of s n = λ e. let free = f.free_index in ground (arith, e) in
        ap (λ (g : ℕ → Option ℕ). g k) c.prices ∙ ground (arith, other);
    orders_size = ap (λ o. o.store_size) c.orders;
    levels_size = c.levels_size;
  }

  old_levels :
      (ls : List Level) → has n (places ls) ≡ false → All (IsLevel s sd) ls → All (IsLevel s' sd) ls
  old_levels ls out h =
      levels-frame s s' sd ls (λ z e. spliced-SameLevel z (λ same. ground (arith, same))) h

places-append : (ls : List Level) (l : Level) → places (ls ++ (l ∷ [])) ≡ places ls ++ (l.at ∷ [])
places-append [] l = refl
places-append (k ∷ ls) l = ap (λ r. k.at ∷ r) (places-append ls l)

All-snoc :
    (s : State) (sd : Side) (ls : List Level) (l : Level)
    → All (IsLevel s sd) ls
    → IsLevel s sd l
    → All (IsLevel s sd) (ls ++ (l ∷ []))
All-snoc s sd [] l h v = (v, tt)
All-snoc s sd (k ∷ ls) l h v = (h.0, All-snoc s sd ls l h.1 v)

-- The first level of a side.
pub alone-IsBookSide :
    (s s' : State) (sd : Side) (n p : ℕ) (f : IsFresh s sd n p)
    → Spliced s n n n s'
    → best_of s' sd ≡ some n
    → IsBookSide s' sd (record { at = n; head = p; behind = [] } ∷ [])
alone-IsBookSide s s' sd n p f c best = record {
  linked = (best, record { links = (c.next_n, c.prev_n); distinct = (refl, tt) });
  levels = (new-IsLevel s s' sd n p n n f c, tt);
}

-- A level between the last and the first one of a side, which stays the best or gives way to it.
module _ (s s' : State) (sd : Side) (n p : ℕ) (f : IsFresh s sd n p) (l : Level) (ls : List Level)
    (v : IsBookSide s sd (l ∷ ls)) (out : has n (places (l ∷ ls)) ≡ false)
    (c : Spliced s n (last l.at (places ls)) l.at s') where
  pub spliced-IsRing : IsRing (next_level s') (prev_level s') l.at (places ls ++ (n ∷ []))
  spliced-IsRing =
      append-IsRing (next_level s) (prev_level s) (next_level s') (prev_level s') l.at (places ls)
        v.linked.1 n out c.next_l c.prev_n c.next_n c.prev_x c.nexts c.prevs

  pub spliced_last-IsBookSide :
      best_of s' sd ≡ some l.at
      → IsBookSide s' sd ((l ∷ ls) ++ (record { at = n; head = p; behind = [] } ∷ []))
  spliced_last-IsBookSide best = record {
    linked = (
      best,
      subst (λ r. IsRing (next_level s') (prev_level s') l.at r)
          (sym (places-append ls (record { at = n; head = p; behind = [] }))) spliced-IsRing,
    );
    levels =
        All-snoc s' sd (l ∷ ls) (record { at = n; head = p; behind = [] })
          (old_levels s s' sd n p (last l.at (places ls)) l.at f c (l ∷ ls) out v.levels)
          (new-IsLevel s s' sd n p (last l.at (places ls)) l.at f c);
  }

  pub spliced_first-IsBookSide :
      best_of s' sd ≡ some n → IsBookSide s' sd (record { at = n; head = p; behind = [] } ∷ l ∷ ls)
  spliced_first-IsBookSide best = record {
    linked = (best, turn-IsRing (next_level s') (prev_level s') l.at (places ls) n spliced-IsRing);
    levels = (
      new-IsLevel s s' sd n p (last l.at (places ls)) l.at f c,
      old_levels s s' sd n p (last l.at (places ls)) l.at f c (l ∷ ls) out v.levels,
    );
  }

-- No level of the side is the fresh one: the index of its price is taken.
pub fresh-apart :
    (s : State) (sd od : Side) (n p : ℕ)
    → IsFresh s sd n p
    → (ls : List Level) → All (IsLevel s od) ls
    → has n (places ls) ≡ false
fresh-apart s sd od n p f [] h = refl
fresh-apart s sd od n p f (l ∷ ls) h =
    let other : n ≢ l.at = λ e.
      let taken = h.0.orders.0.0.level in
      let first = h.0.queue.first in
      let first' = f.queue.first in
      let same : l.head ≡ p =
        some-injective l.head p
          (sym first ∙ ap (λ z. (level_at s z).first_me_order) (sym e) ∙ first') in
      none-ne-some l.at (
        sym (
          sym taken
          ∙ ap (λ q. s.price_orders_at_price (price_to_index (order_at s q).price)) same
          ∙ ap s.price_orders_at_price f.order_index
          ∙ f.free_index)) in
    ground (arith, other, fresh-apart s sd od n p f ls h.1)

-- A level of one side is none of the other one: its orders are of the one side only.
pub sides-apart :
    (s : State) (sd od : Side) (l : Level)
    → IsLevel s sd l
    → sd ≢ od
    → (ms : List Level) → All (IsLevel s od) ms
    → has l.at (places ms) ≡ false
sides-apart s sd od l v ne [] h = refl
sides-apart s sd od l v ne (m ∷ ms) h =
    let other : l.at ≢ m.at = λ e.
      let same : l.head ≡ m.head =
        some-injective l.head m.head
          (sym v.queue.first ∙ ap (λ z. (level_at s z).first_me_order) e ∙ h.0.queue.first) in
      ne (sym v.orders.0.1 ∙ ap (λ q. (order_at s q).side) same ∙ h.0.orders.0.1) in
    ground (arith, other, sides-apart s sd od l v ne ms h.1)

pub last-apart :
    (s : State) (sd od : Side) (l : Level) (ls ms : List Level)
    → All (IsLevel s sd) (l ∷ ls)
    → sd ≢ od
    → All (IsLevel s od) ms
    → has (last l.at (places ls)) (places ms) ≡ false
last-apart s sd od l [] ms v ne w = sides-apart s sd od l v.0 ne ms w
last-apart s sd od l (k ∷ ls) ms v ne w = last-apart s sd od k ls ms v.1 ne w

pub places-Below :
    (s : State) (sd : Side) (ls : List Level)
    → All (IsLevel s sd) ls
    → Below s.orders_at_price_pool.store_size (places ls)
places-Below s sd [] v z h = absurd (cc)
places-Below s sd (l ∷ ls) v z h = ground (arith, v.0.inside, places-Below s sd ls v.1 z)

-- The other side of the book is not touched, whose levels are not the neighbours of the new one.
pub other_side-IsBookSide :
    (s s' : State) (sd od : Side) (n p l x : ℕ) (f : IsFresh s sd n p) (c : Spliced s n l x s')
    (ms : List Level)
    → IsBookSide s od ms
    → has l (places ms) ≡ false
    → has x (places ms) ≡ false
    → best_of s' od ≡ best_of s od
    → IsBookSide s' od ms
other_side-IsBookSide s s' sd od n p l x f c ms v ol ox best =
    let out = fresh-apart s sd od n p f ms v.levels in
    IsBookSide-frame s s' od ms
      (λ z h. spliced-SameLevel s s' sd n p l x f c z (λ e. ground (arith, e)))
      (λ z h. c.nexts z (λ e. ground (arith, e)) (λ e. ground (arith, e)))
      (λ z h. c.prevs z (λ e. ground (arith, e)) (λ e. ground (arith, e))) best v
