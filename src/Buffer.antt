-- ===== src/Buffer.antt =====
-- A `jule::Slice` of api/slice.hpp that one function allocates, fills and returns: nothing else
-- refers to its memory meanwhile, so its items are a list. What `new Item[n]` leaves in the memory
-- is the argument `fill`.
use julelang.Prelude.{
  ℕ, suc, ◌+◌, ◌≤◌, ◌≡◌, refl, ap, ◌∙◌, List, [], ◌∷◌, ◌++◌, arith, ltb, leb, if◌then◌else◌, length,
  set, take, replicate, length-append, lt→ltb, le→leb, append_assoc, append-nil, length-replicate,
}
use julelang.Prelude.Int.{pos}
use julelang.Panic.{Result, ok, panic, ◌>>=◌, index_out_of_range, slicing_out_of_range}

module _ {A : Type 0} where
  -- `Slice::alloc(n)`.
  pub alloc : A → ℕ → List A
  alloc fill n = replicate n fill

  -- `buffer[i] = v`.
  pub write : List A → ℕ → A → Result (List A)
  write buffer i v =
      if ltb i (length buffer) then ok (set buffer i v) else panic (index_out_of_range (pos i))

  -- `buffer.slice(0, n)`.
  pub cut : List A → ℕ → Result (List A)
  cut buffer n =
      if leb n (length buffer)
      then ok (take n buffer)
      else panic (slicing_out_of_range (pos 0) (pos n))

  set-append :
      (done : List A) (old v : A) (rest : List A)
      → set (done ++ (old ∷ rest)) (length done) v ≡ done ++ (v ∷ rest)
  set-append [] old v rest = refl
  set-append (x ∷ done) old v rest = ap (λ (t : List A). x ∷ t) (set-append done old v rest)

  pub write-append :
      (done : List A) (old v : A) (rest : List A)
      → write (done ++ (old ∷ rest)) (length done) v ≡ ok ((done ++ (v ∷ [])) ++ rest)
  unfolding write
  write-append done old v rest =
      let fits =
        lt→ltb (length done) (length (done ++ (old ∷ rest)))
          (omega (arith, length-append done (old ∷ rest))) in
      rw (fits, set-append done old v rest, append_assoc done (v ∷ []) rest)

  take-append : (done rest : List A) → take (length done) (done ++ rest) ≡ done
  take-append [] rest = refl
  take-append (x ∷ done) rest = ap (λ (t : List A). x ∷ t) (take-append done rest)

  pub cut-append : (done rest : List A) → cut (done ++ rest) (length done) ≡ ok done
  unfolding cut
  cut-append done rest =
      let fits =
        le→leb (length done) (length (done ++ rest)) (omega (arith, length-append done rest)) in
      rw (fits, take-append done rest)

  pub length-alloc : (fill : A) (n : ℕ) → length (alloc fill n) ≡ n
  unfolding alloc
  length-alloc fill n = length-replicate n fill

  -- A loop that writes `items` behind what is done, if `need` more items fit, and returns the
  -- buffer and the position behind them.
  abbrev pub Fills : ℕ → (List A → ℕ → Result (List A × ℕ)) → List A → Type 0
  Fills need loop items =
      (done room : List A)
      → need ≤ length room
      → (left : List A) × (loop (done ++ room) (length done)
          ≡ ok ((done ++ items) ++ left, length (done ++ items)))

  pub fill_none : (need : ℕ) → Fills need (λ a n. ok (a, n)) []
  fill_none need done room h = (room, rw append-nil)

  pub fill_one :
      (need : ℕ) (loop : List A → ℕ → Result (List A × ℕ)) (items : List A) (v : A)
      → Fills need loop items
      → Fills (suc need) (λ a n. write a n v >>= λ a'. loop a' (n + 1)) (v ∷ items)
  fill_one need loop items v go done [] fits = absurd (omega arith)
  fill_one need loop items v go done (old ∷ room) fits =
      let (left, run) = go (done ++ (v ∷ [])) room (omega arith) in
      let step : length done + 1 ≡ length (done ++ (v ∷ [])) =
        omega (arith, length-append done (v ∷ [])) in
      (
        left,
        rw (write-append done old v room, step)
            (run
              ∙ ap (λ (t : List A). ok (t ++ left, length t)) (append_assoc done (v ∷ []) items)),
      )

  -- Such a loop on a new buffer, and the cut to what it wrote.
  pub fill_all :
      (need room : ℕ) (fill : A) (loop : List A → ℕ → Result (List A × ℕ)) (items : List A)
      → need ≤ room
      → Fills need loop items
      → (loop (alloc fill room) 0 >>= λ (a, n). cut a n) ≡ ok items
  fill_all need room fill loop items fits go =
      let (left, run) = go [] (alloc fill room) (omega (arith, length-alloc fill room)) in
      rw run (cut-append items left)
