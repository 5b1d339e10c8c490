-- ===== src/Release/Archive/Sound.antt =====
-- What an archive holds that `_verify_archive` of scripts/release/release_artifacts.py accepts.
use mathlib.Core.Option.{some-injective}
use codex_subscription_route.Prelude.{
  ok-injective, is_nil, All-map, ◌≡◌, ◌∙◌, refl, sym, ap, Bool, true, false, not, Option, none,
  some, List, [], ◌∷◌, ◌++◌, map, arith, all, Bool-cases, Option-cases, inl, inr, All, and-eq-true,
  ok, >>=-eq-ok, raise_if->>-eq-ok, AnyOf,
}
use codex_subscription_route.Text.{
  Bytes, codes, bytes_eq, bytes_eq_iff, contains, starts_with, starts_with-eq_append, is_sorted,
}
use codex_subscription_route.Release.Errors.{unsorted_members, empty_archive, omits_source}
use codex_subscription_route.Release.Scan.{scan_source_file}
use codex_subscription_route.Release.Sources.{SourceFile, Git, git_source_files}
use codex_subscription_route.Release.Sources.Listed.{git_source_files-IsListed}
use codex_subscription_route.Release.Archive.{
  Context, Member, mode_of, prefix, member_of, relative_name, check_header, find_source,
  check_expected, check_metadata, check_member, check_members, check_contents, verify_archive,
}
use codex_subscription_route.Release.Archive.Lookup.{find_source-some, find_source_self}

module _ (context : Context) where
  -- The fields that the tests on a member determine.
  record HasMetadata (m : Member) : Type 0 where
    named : starts_with m.name (prefix context) ≡ true
    regular : m.is_file ≡ true
    user : m.uid ≡ 0
    group : m.gid ≡ 0
    user_name : m.uname ≡ codes "root"
    group_name : m.gname ≡ codes "root"
    time : m.mtime ≡ context.source_epoch

  check_expected-eq :
      (m : Member) (f : SourceFile)
      → check_expected m (some f) ≡ ok tt
      → (m.content ≡ f.content) × (m.mode ≡ mode_of f.executable)
  unfolding check_expected
  check_expected-eq m f h = ground (arith, bytes_eq_iff m.content f.content)

  -- Fields that agree make the members equal.
  member_eq :
      (m : Member) (f : SourceFile)
      → HasMetadata m
      → f.path ≡ relative_name context m
      → m.content ≡ f.content
      → m.mode ≡ mode_of f.executable
      → m ≡ member_of context f
  unfolding member_of
  member_eq m f d p c e =
      let named : m.name ≡ prefix context ++ f.path =
        starts_with-eq_append m.name (prefix context) d.named
        ∙ ap (λ r. prefix context ++ r) (sym p) in
      cc (named, d.regular, d.user, d.group, d.user_name, d.group_name, d.time, c, e)

  -- The member is the one that the writer makes of a committed file.
  abbrev pub IsCommitted : List SourceFile → Member → Type 0
  IsCommitted sources m = AnyOf (λ f. m ≡ member_of context f) sources

  abbrev pub IsArchived : List Member → SourceFile → Type 0
  IsArchived members f = AnyOf (λ m. m ≡ member_of context f) members

  -- The committed file that belongs to a member.
  record Belongs (sources : List SourceFile) (m : Member) : Type 0 where
    source : SourceFile
    found : find_source (relative_name context m) sources ≡ some source
    same : m ≡ member_of context source

  check_expected-some :
      (m : Member) (o : Option SourceFile)
      → check_expected m o ≡ ok tt
      → (f : SourceFile) × (o ≡ some f)
  unfolding check_expected
  check_expected-some m none h = cc
  check_expected-some m (some f) h = (f, refl)

  Belongs-IsCommitted :
      (sources : List SourceFile) (m : Member) → Belongs sources m → IsCommitted sources m
  Belongs-IsCommitted sources m b =
      into sources (find_source-some (relative_name context m) sources b.source b.found).1
    where
      into : (fs : List SourceFile) → AnyOf (λ g. g ≡ b.source) fs → IsCommitted fs m
      into [] a = a
      into (f ∷ fs) (inl e) = inl (b.same ∙ ap (member_of context) (sym e))
      into (f ∷ fs) (inr a) = inr (into fs a)

  -- A committed file whose path was seen is archived.
  seen-IsArchived :
      (sources : List SourceFile) (f : SourceFile) (ms : List Member)
      → find_source f.path sources ≡ some f
      → All (Belongs sources) ms
      → contains (map (relative_name context) ms) f.path ≡ true
      → IsArchived ms f
  unfolding contains
  seen-IsArchived sources f [] e b h = cc
  seen-IsArchived sources f (m ∷ ms) e b h =
      elim (Bool-cases (bytes_eq f.path (relative_name context m))) [
        | inl t ↦
            let p : f.path ≡ relative_name context m =
              (bytes_eq_iff f.path (relative_name context m)).0 t in
            let same : b.0.source ≡ f = some-injective _ _ (sym b.0.found ∙ rw (← p) e) in
            inl (b.0.same ∙ ap (member_of context) same)
        | inr t ↦ inr (seen-IsArchived sources f ms e b.1 (rw t at h))
      ]

  all-contains :
      (seen : List Bytes) (fs : List SourceFile)
      → all (λ f. contains seen f.path) fs ≡ true
      → All (λ f. contains seen f.path ≡ true) fs
  all-contains seen [] h = tt
  all-contains seen (f ∷ fs) h =
      let both = and-eq-true (contains seen f.path) _ h in (both.0, all-contains seen fs both.1)

  -- The members of the archive and the committed files are the same.
  pub record IsComplete (sources : List SourceFile) (members : List Member) : Type 0 where
    pub committed : All (IsCommitted sources) members
    pub archived : All (IsArchived members) sources

module _ (lower : Bytes → Bytes) (context : Context) where
  check_metadata-HasMetadata :
      (m : Member) → check_metadata lower context m ≡ ok tt → HasMetadata context m
  unfolding check_metadata
  check_metadata-HasMetadata m h =
      ground (arith, bytes_eq_iff m.uname (codes "root"), bytes_eq_iff m.gname (codes "root"))

  check_member-Belongs :
      (sources : List SourceFile) (m : Member) (r : Bytes)
      → check_member lower context sources m ≡ ok r
      → (r ≡ relative_name context m) × Belongs context sources m
  unfolding check_member
  check_member-Belongs sources m r h =
      let (u, a, h₁) = >>=-eq-ok (check_metadata lower context m) _ h in
      let (v, b, h₂) =
        >>=-eq-ok (scan_source_file lower (relative_name context m) m.content) _ h₁ in
      let (w, c, h₃) =
        >>=-eq-ok (check_expected m (find_source (relative_name context m) sources)) _ h₂ in
      let (f, e) =
        check_expected-some context m (find_source (relative_name context m) sources) c in
      let (content, mode) = check_expected-eq context m f (rw e at c) in
      let (path, _) = find_source-some (relative_name context m) sources f e in
      (
        sym (ok-injective h₃),
        record {
          source = f;
          found = e;
          same = member_eq context m f (check_metadata-HasMetadata m a) path content mode;
        },
      )

  check_members-Belongs :
      (sources : List SourceFile) (ms : List Member) (seen : List Bytes)
      → check_members lower context sources ms ≡ ok seen
      → (seen ≡ map (relative_name context) ms) × All (Belongs context sources) ms
  unfolding check_members
  check_members-Belongs sources [] seen h = (sym (ok-injective h), tt)
  check_members-Belongs sources (m ∷ ms) seen h =
      let (r, a, h₁) = >>=-eq-ok (check_member lower context sources m) _ h in
      let (rs, b, h₂) = >>=-eq-ok (check_members lower context sources ms) _ h₁ in
      let (e, one) = check_member-Belongs sources m r a in
      let (es, more) = check_members-Belongs sources ms rs b in
      (sym (ok-injective h₂) ∙ cc (e, es), (one, more))

  check_contents-IsComplete :
      (sources : List SourceFile) (ms : List Member)
      → All (λ f. find_source f.path sources ≡ some f) sources
      → check_contents lower context sources (some ms) ≡ ok tt
      → IsComplete context sources ms
  unfolding check_contents
  check_contents-IsComplete sources ms self h =
      let (s, h₁) =
        raise_if->>-eq-ok (not (is_sorted (map (λ m. m.name) ms))) unsorted_members _ h in
      let (n, h₂) = raise_if->>-eq-ok (is_nil ms) empty_archive _ h₁ in
      let (seen, c, h₃) = >>=-eq-ok (check_members lower context sources ms) _ h₂ in
      let (o, h₄) =
        raise_if->>-eq-ok (not (all (λ f. contains seen f.path) sources)) omits_source _ h₃ in
      let (e, b) = check_members-Belongs sources ms seen c in
      let listed : All (λ f. contains seen f.path ≡ true) sources =
        all-contains context seen sources (is_true _ o) in
      record {
        committed =
            All-map (Belongs context sources) (IsCommitted context sources)
              (Belongs-IsCommitted context sources) ms b;
        archived = both sources self (rw e at listed) b;
      }
    where
      is_true : (b : Bool) → not b ≡ false → b ≡ true
      is_true b e = ground arith

      both :
          (fs : List SourceFile)
          → All (λ f. find_source f.path sources ≡ some f) fs
          → All (λ f. contains (map (relative_name context) ms) f.path ≡ true) fs
          → All (Belongs context sources) ms
          → All (IsArchived context ms) fs
      both [] a c b = tt
      both (f ∷ fs) a c b = (seen-IsArchived context sources f ms a.0 b c.0, both fs a.1 c.1 b)

-- An archive that is accepted has exactly the files of the commit: each member is a committed file
-- under the archive root, with its content, its mode, root as its owner and the commit's time, and
-- each committed file is a member.
pub verify_archive_sound :
    (lower casefold : Bytes → Bytes) (git : Git) (unpack : Bytes → Option (List Member))
    (context : Context) (archive : Bytes)
    → verify_archive lower casefold git unpack context archive ≡ ok tt
    → (sources : List SourceFile) × (members : List Member) × (git_source_files lower casefold git
        ≡ ok sources)
      × (unpack archive ≡ some members)
      × IsComplete context sources members
unfolding verify_archive check_contents
verify_archive_sound lower casefold git unpack context archive h =
    let (u, a, h₁) = >>=-eq-ok (check_header context archive) _ h in
    let (sources, g, h₂) = >>=-eq-ok (git_source_files lower casefold git) _ h₁ in
    elim (Option-cases (unpack archive)) [
      | inl n ↦ cc (n, h₂)
      | inr (ms, e) ↦ (
        sources,
        ms,
        g,
        e,
        check_contents-IsComplete lower context sources ms
            (find_source_self sources
              (git_source_files-IsListed lower casefold git sources g).distinct)
            (rw e at h₂),
      )
    ]
