-- ===== src/Domain/Paths.antt =====
-- The equality of directories' paths.
use mathlib.Core.Bool.{◌&&◌}
use multi_agent_aidlc.Common.{
  ◌≡◌, ◌↔◌, Bool, true, false, Eq, ◌==◌, string_eq, beq_refl, eq_of_beq, arith,
}
use multi_agent_aidlc.Domain.Kinds.{stage_name_eq, artifact_kind_eq}
use multi_agent_aidlc.Domain.Records.{ContentPath, current, records}

abbrev pub path_beq : ContentPath → ContentPath → Bool
path_beq (current p s a k) (current q t b l) = p == q && (s == t && (a == b && k == l))
path_beq (current _ _ _ _) (records _ _ _) = false
path_beq (records _ _ _) (current _ _ _ _) = false
path_beq (records p s i) (records q t j) = p == q && (s == t && i == j)

and_parts : (a b : Bool) → (a && b) ≡ true → (a ≡ true) × (b ≡ true)
and_parts a b h = ground arith

path_beq-eq : (x y : ContentPath) → path_beq x y ≡ true → x ≡ y
path_beq-eq (current p s a k) (current q t b l) h =
    let (hp, r) = and_parts (p == q) _ h in
    let (hs, r') = and_parts (s == t) _ r in
    let (ha, hk) = and_parts (a == b) _ r' in
    cc (eq_of_beq p q hp, eq_of_beq s t hs, eq_of_beq a b ha, eq_of_beq k l hk)
path_beq-eq (current p s a k) (records q t j) h = cc
path_beq-eq (records p s i) (current q t b l) h = cc
path_beq-eq (records p s i) (records q t j) h =
    let (hp, r) = and_parts (p == q) _ h in
    let (hs, hi) = and_parts (s == t) _ r in
    cc (eq_of_beq p q hp, eq_of_beq s t hs, eq_of_beq i j hi)

path_beq_refl : (x : ContentPath) → path_beq x x ≡ true
path_beq_refl (current p s a k) = rw (beq_refl p, beq_refl s, beq_refl a, beq_refl k)
path_beq_refl (records p s i) = rw (beq_refl p, beq_refl s, beq_refl i)

pub path_beq_iff : (x y : ContentPath) → (path_beq x y ≡ true) ↔ (x ≡ y)
path_beq_iff x y = (path_beq-eq x y, λ e. rw (← e) (path_beq_refl x))

instance abbrev pub path_eq : Eq ContentPath
path_eq = record { beq = path_beq; beq_iff = path_beq_iff }
