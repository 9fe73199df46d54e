-- ===== src/Inject/Writes.antt =====
-- inject.go: what one write does to the memory of a field, in one instance or in two.
use pecs.Prelude.{
  ℕ, ◌+◌, ◌≤◌, ◌<◌, ◌≡◌, refl, sym, ◌∙◌, true, none, [], arith, leb, ltb, Bool-cases, inl, inr,
  ◌==◌, ◌&&◌,
}
use pecs.System.{
  FieldKind, kind_session, kind_manager, kind_component, kind_relation, kind_relation_slice,
  kind_resource, kind_payload, kind_peer, kind_peer_slice, kind_shared, kind_shared_slice,
  FieldMeta,
}
use pecs.Inject.{
  Instance, Write, puts, fills, empties, zeroes, leaves, Turn, writes, apply_write, set_field_ptr,
  set_slice_from_ptrs, clear_slice, zero_field,
}
use pecs.Inject.Slices.{elements, elements-set_slice}

-- How a field lies in memory; a phantom field has no memory.
pub data Shape : Type 0 where
  in_pointer in_slice in_bytes in_nothing : Shape

abbrev pub shape : FieldKind → Shape
shape kind_session = in_pointer
shape kind_manager = in_pointer
shape kind_component = in_pointer
shape kind_relation = in_pointer
shape kind_resource = in_pointer
shape kind_peer = in_pointer
shape kind_shared = in_pointer
shape kind_relation_slice = in_slice
shape kind_peer_slice = in_slice
shape kind_shared_slice = in_slice
shape kind_payload = in_bytes
shape _ = in_nothing

-- The write is to the memory of the field, all of it.
abbrev pub Covers : Shape → FieldMeta → Write → Type 0
Covers in_pointer f (puts o v) = o ≡ f.offset
Covers in_slice f (fills o ps) = o ≡ f.offset
Covers in_slice f (empties o) = o ≡ f.offset
Covers in_bytes f (zeroes o n) = (o ≡ f.offset) × (n ≡ f.size)
Covers in_nothing f leaves = Unit
Covers _ f _ = ⊥

abbrev pub CoversIn : Shape → FieldMeta → Turn → Type 0
CoversIn s f (writes w last) = Covers s f w
CoversIn s f _ = Unit

-- The field shows the same in both instances.
abbrev pub Agrees : Shape → FieldMeta → Instance → Instance → Type 0
Agrees in_pointer f i j = i.pointers f.offset ≡ j.pointers f.offset
Agrees in_slice f i j = elements (i.slices f.offset) ≡ elements (j.slices f.offset)
Agrees in_bytes f i j = (k : ℕ) → f.offset ≤ k → k < f.offset + f.size → i.bytes k ≡ j.bytes k
Agrees in_nothing f i j = Unit

-- The field is nil, has no elements, or is all zero bytes.
abbrev pub Cleared : Shape → FieldMeta → Instance → Type 0
Cleared in_pointer f i = i.pointers f.offset ≡ none
Cleared in_slice f i = elements (i.slices f.offset) ≡ []
Cleared in_bytes f i = (k : ℕ) → f.offset ≤ k → k < f.offset + f.size → i.bytes k ≡ 0
Cleared in_nothing f i = Unit

-- The same write keeps what agrees.
keeps_pointer :
    (o : ℕ) (w : Write) (i j : Instance)
    → i.pointers o ≡ j.pointers o
    → (apply_write w i).pointers o ≡ (apply_write w j).pointers o
unfolding apply_write set_field_ptr set_slice_from_ptrs clear_slice zero_field
keeps_pointer o (puts p v) i j h = elim (Bool-cases (p == o)) [ inl e ↦ rw e refl | inr e ↦ rw e h ]
keeps_pointer o (fills p ptrs) i j h = h
keeps_pointer o (empties p) i j h = h
keeps_pointer o (zeroes p n) i j h = h
keeps_pointer o leaves i j h = h

keeps_slice :
    (o : ℕ) (w : Write) (i j : Instance)
    → elements (i.slices o) ≡ elements (j.slices o)
    → elements ((apply_write w i).slices o) ≡ elements ((apply_write w j).slices o)
unfolding apply_write set_field_ptr set_slice_from_ptrs clear_slice zero_field
keeps_slice o (fills p ptrs) i j h = elim (Bool-cases (p == o)) [
  | inl e ↦ rw e (elements-set_slice ptrs (i.slices p) ∙ sym (elements-set_slice ptrs (j.slices p)))
  | inr e ↦ rw e h
]
keeps_slice o (empties p) i j h = elim (Bool-cases (p == o)) [ inl e ↦ rw e refl | inr e ↦ rw e h ]
keeps_slice o (puts p v) i j h = h
keeps_slice o (zeroes p n) i j h = h
keeps_slice o leaves i j h = h

keeps_byte :
    (k : ℕ) (w : Write) (i j : Instance)
    → i.bytes k ≡ j.bytes k
    → (apply_write w i).bytes k ≡ (apply_write w j).bytes k
unfolding apply_write set_field_ptr set_slice_from_ptrs clear_slice zero_field
keeps_byte k (zeroes p n) i j h = elim (Bool-cases (leb p k && ltb k (p + n))) [
  | inl e ↦ rw e refl
  | inr e ↦ rw e h
]
keeps_byte k (fills p ptrs) i j h = h
keeps_byte k (empties p) i j h = h
keeps_byte k (puts p v) i j h = h
keeps_byte k leaves i j h = h

pub apply_write-Agrees :
    (s : Shape) (f : FieldMeta) (w : Write) (i j : Instance)
    → Agrees s f i j
    → Agrees s f (apply_write w i) (apply_write w j)
apply_write-Agrees in_pointer f w i j h = keeps_pointer f.offset w i j h
apply_write-Agrees in_slice f w i j h = keeps_slice f.offset w i j h
apply_write-Agrees in_bytes f w i j h = λ k l u. keeps_byte k w i j (h k l u)
apply_write-Agrees in_nothing f w i j h = tt

-- A write of all of the field makes it agree, whatever it was.
pub Covers-Agrees :
    (s : Shape) (f : FieldMeta) (w : Write) (i j : Instance)
    → Covers s f w
    → Agrees s f (apply_write w i) (apply_write w j)
unfolding apply_write set_field_ptr set_slice_from_ptrs clear_slice zero_field
Covers-Agrees in_pointer f (puts o v) i j h =
    let e : (o == f.offset) ≡ true = ground (arith, h) in rw e refl
Covers-Agrees in_pointer f (fills o ps) i j h = absurd h
Covers-Agrees in_pointer f (empties o) i j h = absurd h
Covers-Agrees in_pointer f (zeroes o n) i j h = absurd h
Covers-Agrees in_pointer f leaves i j h = absurd h
Covers-Agrees in_slice f (fills o ps) i j h =
    let e : (o == f.offset) ≡ true = ground (arith, h) in
    rw e (elements-set_slice ps (i.slices o) ∙ sym (elements-set_slice ps (j.slices o)))
Covers-Agrees in_slice f (empties o) i j h =
    let e : (o == f.offset) ≡ true = ground (arith, h) in rw e refl
Covers-Agrees in_slice f (puts o v) i j h = absurd h
Covers-Agrees in_slice f (zeroes o n) i j h = absurd h
Covers-Agrees in_slice f leaves i j h = absurd h
Covers-Agrees in_bytes f (zeroes o n) i j h =
    λ k l u. let e : (leb o k && ltb k (o + n)) ≡ true = ground (arith, h.0, h.1, l, u) in rw e refl
Covers-Agrees in_bytes f (fills o ps) i j h = absurd h
Covers-Agrees in_bytes f (empties o) i j h = absurd h
Covers-Agrees in_bytes f (puts o v) i j h = absurd h
Covers-Agrees in_bytes f leaves i j h = absurd h
Covers-Agrees in_nothing f w i j h = tt
