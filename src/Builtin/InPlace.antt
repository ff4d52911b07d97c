-- ===== src/Builtin/InPlace.antt =====
-- What `append` of api/builtin.hpp leaves in memory where it does not allocate.
use julelang.Prelude.{
  ℕ, ◌+◌, ◌-◌, ◌^◌, ◌≤◌, ◌<◌, ◌≡◌, ap, ◌∙◌, sym, false, List, [], ◌++◌, arith, length,
  length-append, ◌&&◌, ltb, ◌==◌, take, drop, length-take, length-drop, take-append-drop,
  append-nil, append_assoc, some, Option,
}
use julelang.Heap.{Heap, ok}
use julelang.Slice.{Slice, is_nil, copy_range}
use julelang.Slice.Memory.{At}
use julelang.Slice.Items.{Holds}
use julelang.Slice.Release.{Counted}
use julelang.Builtin.{append, reserve}
use julelang.Builtin.Returned.{copy-At, give-Counted}

module _ {A : Type 0} where
  take_all : (k : ℕ) (l : List A) → k ≤ length l → length (take k l) ≡ k
  take_all k l within = omega (arith, length-take k l)

  -- Where the capacity reaches, appending writes behind the items in the same block.
  pub append_in_place-Holds :
      (fill : A) (h : Heap A) (s t : Slice) (xs ys items : List A) (n : ℕ)
      → Holds h s xs
      → Holds h t ys
      → s.len + t.len ≤ s.cap
      → 0 < t.len
      → Counted h s.refs (n + 1) items
      → n < 2 ^ 64 - 2
      → s.base ≡ s.refs.alloc
      → (h' : Heap A) × (append fill s t h ≡ ok (record s { len = s.len + t.len }) h')
        × Holds h' (record s { len = s.len + t.len }) (xs ++ ys)
        × Holds h' s xs
        × (h'.count s.refs.ref ≡ some (n + 1))
  unfolding append reserve is_nil
  append_in_place-Holds fill h s t xs ys items n holds from fits many c few whole =
      let left = holds.here.rest in
      let old = take t.len left in
      let behind = drop t.len left in
      let at : At h s.base s.off (xs ++ (old ++ behind)) = record {
        front = holds.here.front;
        rest = [];
        holds =
            holds.here.holds
            ∙ ap (λ (l : List A). some (holds.here.front ++ l))
                (ap (λ (l : List A). xs ++ l) (sym (take-append-drop t.len left))
                  ∙ sym (append-nil (xs ++ (old ++ behind))));
        starts = holds.here.starts;
      } in
      let within : t.len ≤ length left = omega (arith, holds.room) in
      let (h1, run, at1, same) =
        copy-At h t.base t.off s.base s.off ys xs old behind from.here at
          (take_all t.len left within ∙ sym from.len) in
      let all = at1.front ++ ((xs ++ (ys ++ behind)) ++ at1.rest) in
      let new = record s { len = s.len + t.len } in
      let c' : Counted h1 new.refs (n + 1) all = record {
        counted = c.counted;
        placed = c.placed;
        count = ap (λ (f : ℕ → Option ℕ). f s.refs.ref) same.count ∙ c.count;
        block = ap (λ (b : ℕ). h1.block b) (sym whole) ∙ at1.holds;
      } in
      let (h2, given, count, block, others) = give-Counted h1 new n all c' few holds.real in
      let not_nil : (is_nil s && is_nil t) ≡ false = ground (arith, holds.real) in
      let some_items : (t.len == 0) ≡ false = ground arith in
      let reaches : ltb s.cap (s.len + t.len) ≡ false = ground arith in
      let copy_t : copy_range t.base t.off t.len s.base (s.off + s.len) h ≡ ok tt h1 =
        ap (λ (k : ℕ). copy_range t.base t.off k s.base (s.off + s.len) h) (sym from.len)
        ∙ ap (λ (k : ℕ). copy_range t.base t.off (length ys) s.base (s.off + k) h) (sym holds.len)
        ∙ run in
      let here : h2.block s.base ≡ some all =
        ap (λ (f : ℕ → Option (List A)). f s.base) block ∙ at1.holds in
      (
        h2,
        rw (not_nil, some_items, reaches, copy_t) given,
        record {
          here = record {
            front = at1.front;
            rest = behind ++ at1.rest;
            holds =
                here
                ∙ ap (λ (l : List A). some (at1.front ++ l))
                    (append_assoc xs (ys ++ behind) at1.rest
                      ∙ ap (λ (l : List A). xs ++ l) (append_assoc ys behind at1.rest)
                      ∙ sym (append_assoc xs ys (behind ++ at1.rest)));
            starts = at1.starts;
          };
          len = omega (arith, length-append xs ys, holds.len, from.len);
          within = fits;
          room = omega (arith, holds.room, length-append behind at1.rest, length-drop t.len left);
          real = holds.real;
        },
        record {
          here = record {
            front = at1.front;
            rest = (ys ++ behind) ++ at1.rest;
            holds =
                here
                ∙ ap (λ (l : List A). some (at1.front ++ l))
                    (append_assoc xs (ys ++ behind) at1.rest);
            starts = at1.starts;
          };
          len = holds.len;
          within = holds.within;
          room = omega (
            arith,
            holds.room,
            length-append (ys ++ behind) at1.rest,
            length-append ys behind,
            length-drop t.len left,
            from.len,
          );
          real = holds.real;
        },
        count,
      )
