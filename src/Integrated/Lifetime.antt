-- ===== src/Integrated/Lifetime.antt =====
-- The lifetime of a value that std/jule/integrated/integrated.hpp makes.
use julelang.Prelude.{
  ℕ, suc, ◌≡◌, ◌≢◌, ◌⊎◌, inl, inr, refl, Bool-cases, none, some, List, [], ◌∷◌, arith,
}
use julelang.Heap.{
  Heap, ok, fault, new_block, delete_block, load_block, store_block, ◌>>=◌, ◌>>◌, put,
}
use julelang.Any.{nil_any}
use julelang.Str.{Str, until_nul}
use julelang.Str.Members.{c_str}
use julelang.Str.Members.Laws.{from_c_str-c_str}
use julelang.Integrated.{
  new_value, delete_value, deref_ptr, assign_ptr, str_from_byte_ptr, type_id_of_any,
}

module _ {A : Type 0} where
  -- What is assigned through the address of a value is read there, and nowhere else is written.
  pub deref_ptr-assign_ptr :
      (h : Heap A) (p : ℕ) (x v : A) (xs : List A)
      → h.block p ≡ some (x ∷ xs)
      → (h' : Heap A) × (assign_ptr p v h ≡ ok tt h')
        × (deref_ptr p h' ≡ ok v h')
        × ((q : ℕ) → q ≢ p → h'.block q ≡ h.block q)
  unfolding deref_ptr assign_ptr load_block store_block
  deref_ptr-assign_ptr h p x v xs placed = (
    record h { block = put h.block p (some (v ∷ xs)) },
    ground (arith, placed),
    ground arith,
    λ q other. ground (arith, other),
  )

  -- A new value, unless `std::bad_alloc` is thrown, can be written, read and freed once; a second
  -- deletion and a read behind it have no defined behaviour.
  pub new_value-lifetime :
      (fill v : A) (h : Heap A)
      → ((p : ℕ) × (h' : Heap A) × (h'' : Heap A) × (new_value fill h ≡ ok (some p) h')
          × ((assign_ptr p v >> (deref_ptr p >>= λ x. delete_value p >> (λ g. ok x g))) h'
              ≡ ok v h'')
          × (h''.block p ≡ none)
          × (deref_ptr p h'' ≡ fault)
          × (delete_value p h'' ≡ fault))
        ⊎ ((h' : Heap A) × (new_value fill h ≡ ok none h'))
  unfolding new_value deref_ptr assign_ptr delete_value load_block store_block new_block
      delete_block
  new_value-lifetime fill v h = elim (Bool-cases (h.grants h.next)) [
    | inl grant ↦
        let made = record h {
          block = put h.block (suc h.next) (some (fill ∷ []));
          next = suc h.next;
        } in
        inl (
          suc h.next,
          made,
          record made {
            block = put (put made.block (suc h.next) (some (v ∷ []))) (suc h.next) none;
          },
          ground arith,
          ground arith,
          ground arith,
          ground arith,
          ground arith,
        )
    | inr refused ↦ inr (record h { next = suc h.next }, ground arith)
  ]

-- A text at an address is read up to its first zero byte.
pub str_from_byte_ptr-c_str : (s : Str) → str_from_byte_ptr (c_str s) ≡ some (until_nul s)
unfolding str_from_byte_ptr
str_from_byte_ptr-c_str s = from_c_str-c_str s

-- The type of nil is not tested: its name is read through a null pointer.
pub type_id_of_any-nil : (name : ℕ → Str) → type_id_of_any name nil_any ≡ none
unfolding type_id_of_any
type_id_of_any-nil name = refl
