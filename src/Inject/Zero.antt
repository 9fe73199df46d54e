-- ===== src/Inject/Zero.antt =====
-- inject.go: zeroSystem clears every field of an instance.
use pecs.Prelude.{
  ℕ, zero, suc, ◌+◌, ◌≡◌, refl, sym, ◌∙◌, none, some, List, [], ◌∷◌, arith, get_elem?, leb, ltb,
  ◌==◌, ◌&&◌, either_branch,
}
use mathlib.Core.Option.{none-ne-some, some-injective}
use pecs.System.{
  FieldKind, kind_session, kind_manager, kind_component, kind_relation, kind_relation_slice,
  kind_resource, kind_payload, kind_peer, kind_peer_slice, kind_shared, kind_shared_slice,
  FieldMeta, SystemMeta,
}
use pecs.Inject.{
  Instance, Write, puts, fills, empties, zeroes, leaves, apply_write, set_field_ptr, clear_slice,
  zero_field,
}
use pecs.Inject.Turns.{zero_kind, zero_fields, zero_system}
use pecs.Inject.Slices.{elements}
use pecs.Inject.Writes.{
  Shape, in_pointer, in_slice, in_bytes, in_nothing, shape, Covers, Agrees, Cleared,
  apply_write-Agrees, Covers-Agrees,
}

-- The writes of zeroSystem.
abbrev Zeroes : Write → Type 0
Zeroes (puts o v) = v ≡ none
Zeroes (fills o ptrs) = ⊥
Zeroes _ = Unit

zero_kind-Zeroes : (kind : FieldKind) (f : FieldMeta) → Zeroes (zero_kind kind f)
unfolding zero_kind
zero_kind-Zeroes kind_session f = refl
zero_kind-Zeroes kind_manager f = refl
zero_kind-Zeroes kind_component f = refl
zero_kind-Zeroes kind_relation f = refl
zero_kind-Zeroes kind_resource f = refl
zero_kind-Zeroes kind_peer f = refl
zero_kind-Zeroes kind_shared f = refl
zero_kind-Zeroes _ f = tt

zero_kind-Covers : (kind : FieldKind) (f : FieldMeta) → Covers (shape kind) f (zero_kind kind f)
unfolding zero_kind
zero_kind-Covers kind_session f = refl
zero_kind-Covers kind_manager f = refl
zero_kind-Covers kind_component f = refl
zero_kind-Covers kind_relation f = refl
zero_kind-Covers kind_resource f = refl
zero_kind-Covers kind_peer f = refl
zero_kind-Covers kind_shared f = refl
zero_kind-Covers kind_relation_slice f = refl
zero_kind-Covers kind_peer_slice f = refl
zero_kind-Covers kind_shared_slice f = refl
zero_kind-Covers kind_payload f = (refl, refl)
zero_kind-Covers _ f = tt

-- An instance with nothing in it, which the writes of zeroSystem leave as it is.
abbrev blank : Instance
blank = record {
  pointers = λ o. none;
  slices = λ o. record { backing = []; len = 0 };
  bytes = λ k. 0;
}

Cleared-Agrees : (s : Shape) (f : FieldMeta) (i : Instance) → Agrees s f i blank → Cleared s f i
Cleared-Agrees in_pointer f i h = h
Cleared-Agrees in_slice f i h = h
Cleared-Agrees in_bytes f i h = h
Cleared-Agrees in_nothing f i h = tt

Zeroes-blank :
    (s : Shape) (f : FieldMeta) (w : Write) → Zeroes w → Agrees s f (apply_write w blank) blank
unfolding apply_write set_field_ptr clear_slice zero_field
Zeroes-blank in_pointer f (puts o v) z = ground (arith, z)
Zeroes-blank in_pointer f (empties o) z = refl
Zeroes-blank in_pointer f (zeroes o n) z = refl
Zeroes-blank in_pointer f leaves z = refl
Zeroes-blank in_slice f (puts o v) z = refl
Zeroes-blank in_slice f (empties o) z =
    either_branch (λ s. elements s ≡ []) (o == f.offset) refl refl
Zeroes-blank in_slice f (zeroes o n) z = refl
Zeroes-blank in_slice f leaves z = refl
Zeroes-blank in_bytes f (zeroes o n) z =
    λ k l u. either_branch (λ b. b ≡ 0) (leb o k && ltb k (o + n)) refl refl
Zeroes-blank in_bytes f (puts o v) z = λ k l u. refl
Zeroes-blank in_bytes f (empties o) z = λ k l u. refl
Zeroes-blank in_bytes f leaves z = λ k l u. refl
Zeroes-blank in_nothing f w z = tt
Zeroes-blank _ f (fills o ptrs) z = absurd z

Agrees-trans :
    (s : Shape) (f : FieldMeta) (i j k : Instance)
    → Agrees s f i j
    → Agrees s f j k
    → Agrees s f i k
Agrees-trans in_pointer f i j k p q = p ∙ q
Agrees-trans in_slice f i j k p q = p ∙ q
Agrees-trans in_bytes f i j k p q = λ b l u. p b l u ∙ q b l u
Agrees-trans in_nothing f i j k p q = tt

zero_fields-keep :
    (fields : List FieldMeta) (s : Shape) (f : FieldMeta) (i : Instance)
    → Agrees s f i blank
    → Agrees s f (zero_fields fields i) blank
unfolding zero_fields
zero_fields-keep [] s f i h = h
zero_fields-keep (g ∷ fields) s f i h =
    let write = zero_kind g.kind g in
    zero_fields-keep fields s f _ (
      Agrees-trans s f _ (apply_write write blank) _ (apply_write-Agrees s f write i blank h)
        (Zeroes-blank s f write (zero_kind-Zeroes g.kind g)))

zero_fields-clear :
    (fields : List FieldMeta) (k : ℕ) (f : FieldMeta) (i : Instance)
    → get_elem? fields k ≡ some f
    → Agrees (shape f.kind) f (zero_fields fields i) blank
unfolding zero_fields
zero_fields-clear [] k f i e = absurd (none-ne-some f e)
zero_fields-clear (g ∷ fields) zero f i e =
    let write = zero_kind g.kind g in
    rw (sym (some-injective g f e)) (
      zero_fields-keep fields (shape g.kind) g _ (
        Agrees-trans (shape g.kind) g _ (apply_write write blank) _
          (Covers-Agrees (shape g.kind) g write i blank (zero_kind-Covers g.kind g))
          (Zeroes-blank (shape g.kind) g write (zero_kind-Zeroes g.kind g))))
zero_fields-clear (g ∷ fields) (suc k) f i e = zero_fields-clear fields k f _ e

-- After zeroSystem every pointer field is nil, every slice has no elements and every payload is zero
-- bytes.
pub zero_system-Cleared :
    (meta : SystemMeta) (k : ℕ) (f : FieldMeta) (i : Instance)
    → get_elem? meta.fields k ≡ some f
    → Cleared (shape f.kind) f (zero_system meta i)
unfolding zero_system
zero_system-Cleared meta k f i e =
    Cleared-Agrees (shape f.kind) f _ (zero_fields-clear meta.fields k f i e)
