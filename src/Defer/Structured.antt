-- ===== src/Defer/Structured.antt =====
-- Deferred blocks of api/defer.hpp against an independent description: `try` and `finally`.
use julelang.Prelude.{Option, ap, ◌≡◌, refl, ◌∙◌, sym, none, some, List, [], ◌∷◌}
use julelang.Defer.{
  Exit, done, returned, raised, terminated, DeferBase, empty_defer, defer_block, end_call, destruct,
  unwind, leave, Statement, plain, deferred, exec,
}

module _ {S : Type 0} where
  -- `try` something that is left by `o`, and `finally` the block: it runs behind every way out but the
  -- end of the program, and may end the program itself.
  unfoldable pub finally : (S → Exit S) → Exit S → Exit S
  finally block (done s) = elim (end_call (block s)) [ none ↦ terminated | some s' ↦ done s' ]
  finally block (returned s) = elim (end_call (block s)) [
    | none ↦ terminated
    | some s' ↦ returned s'
  ]
  finally block (raised e s) = elim (end_call (block s)) [
    | none ↦ terminated
    | some s' ↦ raised e s'
  ]
  finally block terminated = terminated

  ended :
      {o : Option S} (how : S → Exit S)
      → o ≡ none
      → elim o [ none ↦ terminated | some s' ↦ how s' ] ≡ terminated
  ended how e = ap (λ o. elim o [ none ↦ terminated | some s' ↦ how s' ]) e

  finally_stops :
      (block : S → Exit S) (o : Exit S)
      → ((s : S) → end_call (block s) ≡ none)
      → finally block o ≡ terminated
  unfolding finally
  finally_stops block (done s) panics = ended (λ s'. done s') (panics s)
  finally_stops block (returned s) panics = ended (λ s'. returned s') (panics s)
  finally_stops block (raised e s) panics = ended (λ s'. raised e s') (panics s)
  finally_stops block terminated panics = refl

  -- A deferred block is a `finally` around the statements behind it.
  unfoldable pub structured : List (Statement S) → S → Exit S
  structured [] s = done s
  structured (deferred block ∷ ss) s = finally block (structured ss s)
  structured (plain code ∷ ss) s = elim (code s) [
    | done s' ↦ structured ss s'
    | returned s' ↦ returned s'
    | raised e s' ↦ raised e s'
    | terminated ↦ terminated
  ]

  -- The destructors of the objects behind a way out.
  abbrev out_of : List (DeferBase S) → Exit S → Exit S
  out_of ds (done s) = leave ds done s
  out_of ds (returned s) = leave ds returned s
  out_of ds (raised e s) = leave ds (raised e) s
  out_of ds terminated = terminated

  -- The objects that are left run behind a block that does not end the program.
  run_block :
      (block : S → Exit S) (ds : List (DeferBase S)) (how : S → Exit S) (s : S)
      → ((s' : S) → out_of ds (how s') ≡ leave ds how s')
      → leave (defer_block block ∷ ds) how s
        ≡ out_of ds (elim (end_call (block s)) [ none ↦ terminated | some s' ↦ how s' ])
  unfolding leave unwind destruct defer_block
  run_block block ds how s same = go_on (end_call (block s))
    where
      go_on :
          (o : Option S)
          → elim (elim o as (λ x. Option S) [ none ↦ none | some s' ↦ unwind ds s' ])
              as (λ x. Exit S) [ none ↦ terminated | some s' ↦ how s' ]
            ≡ out_of ds (elim o [ none ↦ terminated | some s' ↦ how s' ])
      go_on none = refl
      go_on (some s') = sym (same s')

  out_of-finally :
      (block : S → Exit S) (ds : List (DeferBase S)) (o : Exit S)
      → out_of (defer_block block ∷ ds) o ≡ out_of ds (finally block o)
  unfolding finally
  out_of-finally block ds (done s) = run_block block ds done s λ s'. refl
  out_of-finally block ds (returned s) = run_block block ds returned s λ s'. refl
  out_of-finally block ds (raised e s) = run_block block ds (raised e) s λ s'. refl
  out_of-finally block ds terminated = refl

  exec-out_of :
      (ss : List (Statement S)) (ds : List (DeferBase S)) (s : S)
      → exec ss ds s ≡ out_of ds (structured ss s)
  unfolding exec structured
  exec-out_of [] ds s = refl
  exec-out_of (deferred block ∷ ss) ds s =
      exec-out_of ss (defer_block block ∷ ds) s ∙ out_of-finally block ds (structured ss s)
  exec-out_of (plain code ∷ ss) ds s = go_on (code s) λ s'. exec-out_of ss ds s'
    where
      go_on :
          (o : Exit S)
          → ((s' : S) → exec ss ds s' ≡ out_of ds (structured ss s'))
          → elim o [
            | done s' ↦ exec ss ds s'
            | returned s' ↦ leave ds returned s'
            | raised e s' ↦ leave ds (raised e) s'
            | terminated ↦ terminated
          ]
            ≡ out_of ds (elim o [
              | done s' ↦ structured ss s'
              | returned s' ↦ returned s'
              | raised e s' ↦ raised e s'
              | terminated ↦ terminated
            ])
      go_on (done s') rest = rest s'
      go_on (returned s') rest = refl
      go_on (raised e s') rest = refl
      go_on terminated rest = refl

  out_of_nothing : (o : Exit S) → out_of [] o ≡ o
  unfolding leave unwind
  out_of_nothing (done s) = refl
  out_of_nothing (returned s) = refl
  out_of_nothing (raised e s) = refl
  out_of_nothing terminated = refl

  -- A scope with deferred blocks, run by the destructors of its locals, is left as the same scope in
  -- which each deferred block is a `finally` around the statements behind it: the blocks that were
  -- met run, the last one first, behind a normal end, a return and a panic.
  pub exec-structured : (ss : List (Statement S)) (s : S) → exec ss [] s ≡ structured ss s
  exec-structured ss s = exec-out_of ss [] s ∙ out_of_nothing (structured ss s)

  -- A panic in a deferred block that was met ends the program: no handler outside the scope sees it.
  pub exec-panic :
      (block : S → Exit S) (ss : List (Statement S)) (s : S)
      → ((s' : S) → end_call (block s') ≡ none)
      → exec (deferred block ∷ ss) [] s ≡ terminated
  unfolding structured
  exec-panic block ss s panics =
      exec-structured (deferred block ∷ ss) s ∙ finally_stops block (structured ss s) panics

  empty_defer-destruct : (s : S) → destruct empty_defer s ≡ none
  unfolding destruct
  empty_defer-destruct s = refl
