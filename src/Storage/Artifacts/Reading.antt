-- ===== src/Storage/Artifacts/Reading.antt =====
-- What `read_content` returns after writes.
use text.Mathlib.TextLemmas.{append_cancel_left}
use multi_agent_aidlc.Common.{
  ℕ, String, ◌≡◌, ◌≢◌, ◌∙◌, sym, ap, false, Option, some, List, [], ◌∷◌, ok, err, >>=-eq-ok, arith,
  ◌==◌, string_eq, beq_refl, beq_ne, value_error, concat, guard, Error, Bool-cases, inl, inr,
  eq_of_beq,
}
use multi_agent_aidlc.Domain.{
  ArtifactRecord, Hashing, ContentPath, path_eq, content_digest, artifact_kind_eq,
}
use multi_agent_aidlc.Tools.Source.{SourceFile}
use multi_agent_aidlc.Storage.Artifacts.{
  Store, Publication, lookup, put, write, read_content, manifest_of, destination_of, cleared,
  filled, release_source, safe_producer,
}

module _ {A : Type 0} where
  pub lookup-put_self :
      (path : ContentPath) (a : A) (ds : List (ContentPath × A))
      → lookup path (put path a ds) ≡ some a
  lookup-put_self path a [] = rw (beq_refl path)
  lookup-put_self path a ((p, b) ∷ ds) = ground (arith, beq_refl path, lookup-put_self path a ds)

  pub lookup-put_ne :
      (path other : ContentPath) (a : A) (ds : List (ContentPath × A))
      → (path == other) ≡ false
      → lookup other (put path a ds) ≡ lookup other ds
  lookup-put_ne path other a [] h = rw h
  lookup-put_ne path other a ((p, b) ∷ ds) h = elim (Bool-cases (p == path)) [
    | inl hit ↦ rw (hit, h, ap (λ q. q == other) (eq_of_beq p path hit) ∙ h)
    | inr miss ↦ rw miss (ground (arith, lookup-put_ne path other a ds h))
  ]

abbrev unsafe : Error
unsafe = value_error "Unsafe artifact producer"

module _ (hashing : Hashing) where
  -- What a successful write returns, and the directory that it fills.
  pub record Written (hex : String) (now : ℕ) (p : Publication) (store : Store) (r : ArtifactRecord)
      (store' : Store) : Type 0 where
    pub is_record : r ≡ record {
      metadata = manifest_of hashing hex now p;
      content_path = destination_of hashing hex p;
    }
    pub source : Option (List SourceFile)
    pub directories :
        store'.directories
        ≡ put
            (destination_of hashing hex p)
            (filled p
              (manifest_of hashing hex now p)
              source
              (lookup (destination_of hashing hex p) (cleared hashing p store.directories)))
            (cleared hashing p store.directories)

  pub write-Written :
      (hex : String) (now : ℕ) (p : Publication) (store : Store) {r : ArtifactRecord}
      {store' : Store}
      → write hashing hex now p store ≡ ok (r, store')
      → Written hex now p store r store'
  unfolding write
  write-Written hex now p store h =
      let (_, _, h') = >>=-eq-ok (guard (safe_producer p.producing_agent) unsafe) _ h in
      let (source, _, e) = >>=-eq-ok (release_source p.kind p.content) _ h' in
      record { is_record = cc e; source = source; directories = ground (arith, e) }

  -- An artifact that was just written reads back as the content that was published.
  pub read_content-write :
      (hex : String) (now : ℕ) (p : Publication) (store : Store) {r : ArtifactRecord}
      {store' : Store}
      → write hashing hex now p store ≡ ok (r, store')
      → read_content hashing r store' ≡ ok p.content
  unfolding read_content
  read_content-write hex now p store h =
      let w = write-Written hex now p store h in
      rw (w.is_record, w.directories)
        (rw (lookup-put_self (destination_of hashing hex p) _ _)
          (rw (beq_refl (concat "art_" hex), beq_refl (content_digest hashing p.content))))

  -- A snapshot that another publication replaced in the same slot can no longer be read under its
  -- old record, whatever was written.
  pub read_content-superseded :
      (hex hex' : String) (now now' : ℕ) (p q : Publication) (s₀ s₁ s₂ : Store)
      {r r' : ArtifactRecord}
      → write hashing hex now p s₀ ≡ ok (r, s₁)
      → write hashing hex' now' q s₁ ≡ ok (r', s₂)
      → destination_of hashing hex p ≡ destination_of hashing hex' q
      → hex ≢ hex'
      → read_content hashing r s₂ ≡ err (value_error "Artifact snapshot superseded")
  unfolding read_content
  read_content-superseded hex hex' now now' p q s₀ s₁ s₂ h h' slot ne =
      let w = write-Written hex now p s₀ h in
      let w' = write-Written hex' now' q s₁ h' in
      rw (w.is_record, w'.directories, slot)
        (rw (lookup-put_self (destination_of hashing hex' q) _ _) (
          rw (
            beq_ne (concat "art_" hex') (concat "art_" hex)
              (λ e. ne (sym (append_cancel_left "art_" hex' hex e))))))
