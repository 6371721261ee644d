-- ===== src/GitSource/Tip.antt =====
-- internal/gitsource/source.go: a snapshot is the file at the tip of the remote's branch.
use seine.Prelude.{
  String, ◌≡◌, ◌≢◌, refl, sym, ◌∙◌, ap, ◌⊎◌, inl, inr, true, false, Option, some, [], ◌∷◌, arith,
  Option-cases, Bool-cases,
}
use seine.Prelude.Result.{ok, err, >>=-eq-ok, or_error, or_error-eq-ok, Result-cases}
use seine.GitSource.Transport.{
  Client, Method, CloneOptions, FetchOptions, Stat, Fetched, there, absent, stat_failed, updated,
  up_to_date, fetch_failed,
}
use seine.GitSource.Credentials.{resolve_auth}
use seine.GitSource.{
  Source, Snapshot, PullError, open_or_clone, clone_options, fetch_branch, fetch_options, ref_spec,
  remote_ref, read_tip, refresh, pull,
}

-- What git promises: where a repository was cloned from, what a fetch with a forced refspec leaves in
-- the remote-tracking branch, and that objects are named by their hashes.
pub record GitLaws (git : Client) : Type 0 where
  -- the URL of the remote "origin"
  pub origin : git.Repo → git.State → String
  -- the tip of a branch at a URL, and the file at a path below a commit
  pub head : String → String → git.State → Option git.Hash
  pub blob : git.Hash → String → Option String
  pub origin_of_clone :
      (dir : String) (o : CloneOptions git.Keys) (s : git.State) {repo : git.Repo}
      → (git.plain_clone dir o s).0 ≡ some repo
      → origin repo (git.plain_clone dir o s).1 ≡ o.url
  pub head_of_clone :
      (dir : String) (o : CloneOptions git.Keys) (s : git.State) (url branch : String)
      → head url branch (git.plain_clone dir o s).1 ≡ head url branch s
  pub reference_of_fetch :
      (repo : git.Repo) (branch : String) (o : FetchOptions git.Keys) (s : git.State)
      → o.remote_name ≡ "origin"
      → o.ref_specs ≡ ref_spec branch ∷ []
      → o.force ≡ true
      → (git.fetch repo o s).0 ≢ fetch_failed
      → git.reference repo (remote_ref branch) (git.fetch repo o s).1
        ≡ head (origin repo s) branch s
  pub blob_of_file :
      (repo : git.Repo) (h : git.Hash) (path : String) (s : git.State) {c : git.Commit}
      {t : git.Tree} {f : git.File}
      → git.commit_object repo h s ≡ some c
      → git.commit_tree c s ≡ some t
      → git.tree_file t path s ≡ some f
      → git.file_contents f s ≡ blob h path

fetched_cases : (f : Fetched) → (f ≡ fetch_failed) ⊎ ((f ≡ updated) ⊎ (f ≡ up_to_date))
fetched_cases fetch_failed = inl refl
fetched_cases updated = inr (inl refl)
fetched_cases up_to_date = inr (inr refl)

stat_cases : (x : Stat) → (x ≡ there) ⊎ ((x ≡ absent) ⊎ (x ≡ stat_failed))
stat_cases there = inl refl
stat_cases absent = inr (inl refl)
stat_cases stat_failed = inr (inr refl)

module _ (git : Client) (laws : GitLaws git) where
  open laws use {origin, head, blob}

  -- A snapshot of the tip of the source's branch at a URL, in a state of the remotes.
  pub record IsTip (src : Source) (url : String) (s : git.State) (snap : Snapshot) : Type 0 where
    pub tip : git.Hash
    pub is_head : head url src.cfg.branch s ≡ some tip
    pub commit : snap.commit_sha ≡ git.hash_string tip
    pub contents : blob tip src.cfg.path ≡ some snap.contents

  read_tip-ok :
      (src : Source) (repo : git.Repo) (s : git.State) (snap : Snapshot)
      → read_tip git src repo s ≡ ok snap
      → (h : git.Hash) × (git.reference repo (remote_ref src.cfg.branch) s ≡ some h)
        × (snap.commit_sha ≡ git.hash_string h)
        × (blob h src.cfg.path ≡ some snap.contents)
  unfolding read_tip
  read_tip-ok src repo s snap e =
      let (h, r, e1) =
        >>=-eq-ok (or_error (git.reference repo (remote_ref src.cfg.branch) s) PullError.resolve) _
          e in
      let (c, p, e2) =
        >>=-eq-ok (or_error (git.commit_object repo h s) PullError.load_commit) _ e1 in
      let (t, q, e3) = >>=-eq-ok (or_error (git.commit_tree c s) PullError.tree) _ e2 in
      let (f, u, e4) = >>=-eq-ok (or_error (git.tree_file t src.cfg.path s) PullError.file) _ e3 in
      let (d, v, e5) = >>=-eq-ok (or_error (git.file_contents f s) PullError.read) _ e4 in
      let same =
        laws.blob_of_file repo h src.cfg.path s
          (or_error-eq-ok (git.commit_object repo h s) PullError.load_commit p)
          (or_error-eq-ok (git.commit_tree c s) PullError.tree q)
          (or_error-eq-ok (git.tree_file t src.cfg.path s) PullError.file u) in
      let found = or_error-eq-ok (git.file_contents f s) PullError.read v in
      (
        h,
        or_error-eq-ok (git.reference repo (remote_ref src.cfg.branch) s) PullError.resolve r,
        ground arith,
        sym same ∙ (found ∙ ground arith),
      )

  unreadable :
      (src : Source) (method : Option (Method git.Keys)) (s : git.State) (snap : Snapshot)
      → git.stat (git.join src.workdir ".git") s ≡ stat_failed
      → (refresh git src method (open_or_clone git src method s)).0 ≢ ok snap
  unfolding open_or_clone refresh
  unreadable src method s snap a =
      λ h. (let x : err PullError.stat_workdir ≡ ok snap = rw (open_or_clone, a) at h in cc)

  tip_of_fetch :
      (src : Source) (repo : git.Repo) (method : Option (Method git.Keys)) (s : git.State)
      → (fetch_branch git src repo method s).0 ≡ true
      → git.reference repo (remote_ref src.cfg.branch) (fetch_branch git src repo method s).1
        ≡ head (origin repo s) src.cfg.branch s
  unfolding fetch_branch
  tip_of_fetch src repo method s e =
      let o = fetch_options git src.cfg method in
      let law = laws.reference_of_fetch repo src.cfg.branch o s refl refl refl in
      elim (fetched_cases (git.fetch repo o s).0) [
        | inl f ↦ absurd (let x : false ≡ true = rw (fetch_branch, f) at e in cc)
        | inr g ↦ elim g [
          | inl u ↦ rw (fetch_branch, u) (law (λ k. cc))
          | inr u ↦ rw (fetch_branch, u) (law (λ k. cc))
        ]
      ]

  refresh-IsTip :
      (src : Source) (method : Option (Method git.Keys)) (repo : git.Repo) (s : git.State)
      (snap : Snapshot)
      → (refresh git src method (ok repo, s)).0 ≡ ok snap
      → IsTip src (origin repo s) s snap
  unfolding refresh
  refresh-IsTip src method repo s snap e =
      let after = (fetch_branch git src repo method s).1 in
      elim (Bool-cases (fetch_branch git src repo method s).0) [
        | inr f ↦ absurd (let x : err PullError.fetch ≡ ok snap = rw (refresh, f) at e in cc)
        | inl f ↦
            let (h, r, c, d) = read_tip-ok src repo after snap (rw (refresh, f) at e) in
            record {
              tip = h;
              is_head = sym (tip_of_fetch src repo method s f) ∙ r;
              commit = c;
              contents = d;
            }
      ]

  -- Where the snapshot's remote comes from: the configured URL, if there was no working copy, or else
  -- the working copy that was there.
  pub record Follows (src : Source) (s : git.State) (snap : Snapshot) : Type 0 where
    pub url : String
    pub from :
        (git.stat (git.join src.workdir ".git") s ≡ absent) × (url ≡ src.cfg.url)
        ⊎ ((repo : git.Repo) × (git.plain_open src.workdir s ≡ some repo) × (url ≡ origin repo s))
    pub tip : IsTip src url s snap

  refresh_error :
      (src : Source) (method : Option (Method git.Keys)) (e : PullError) (s : git.State)
      (snap : Snapshot)
      → (refresh git src method (err e, s)).0 ≢ ok snap
  unfolding refresh
  refresh_error src method e s snap = λ h. cc

  cloned-Follows :
      (src : Source) (method : Option (Method git.Keys)) (s : git.State) (snap : Snapshot)
      → git.stat (git.join src.workdir ".git") s ≡ absent
      → (refresh git src method (open_or_clone git src method s)).0 ≡ ok snap
      → Follows src s snap
  unfolding open_or_clone
  cloned-Follows src method s snap a h =
      let o = clone_options git src.cfg method in
      let made = git.plain_clone src.workdir o s in
      elim (Option-cases made.0) [
        | inl p ↦
            absurd
              (refresh_error src method PullError.clone made.1 snap (rw (open_or_clone, a, p) at h))
        | inr (repo, p) ↦
            let url = laws.origin_of_clone src.workdir o s p in
            let same = laws.head_of_clone src.workdir o s src.cfg.url src.cfg.branch in
            let t = refresh-IsTip src method repo made.1 snap (rw (open_or_clone, a, p) at h) in
            record {
              url = src.cfg.url;
              from = inl (a, refl);
              tip = record {
                tip = t.tip;
                is_head = sym same ∙ (ap (λ u. head u src.cfg.branch made.1) (sym url) ∙ t.is_head);
                commit = t.commit;
                contents = t.contents;
              };
            }
      ]

  opened-Follows :
      (src : Source) (method : Option (Method git.Keys)) (s : git.State) (snap : Snapshot)
      → git.stat (git.join src.workdir ".git") s ≡ there
      → (refresh git src method (open_or_clone git src method s)).0 ≡ ok snap
      → Follows src s snap
  unfolding open_or_clone
  opened-Follows src method s snap a h = elim (Option-cases (git.plain_open src.workdir s)) [
    | inl p ↦
        absurd
          (refresh_error src method PullError.open_existing s snap (rw (open_or_clone, a, p) at h))
    | inr (repo, p) ↦ record {
      url = origin repo s;
      from = inr (repo, p, refl);
      tip = refresh-IsTip src method repo s snap (rw (open_or_clone, a, p) at h);
    }
  ]

  -- A pull that succeeds returns the commit at the tip of the configured branch and the file at the
  -- configured path below it, as the remote has them when it is called. The remote is the configured
  -- URL where there was no working copy, and otherwise the origin of the working copy.
  pub pull-Follows :
      (src : Source) (s : git.State) (snap : Snapshot)
      → (pull git src s).0 ≡ ok snap
      → Follows src s snap
  unfolding pull
  pull-Follows src s snap h = elim (Result-cases (resolve_auth git src.cfg.auth s)) [
    | inl (e, p) ↦ absurd (let x : err (PullError.auth e) ≡ ok snap = rw (pull, p) at h in cc)
    | inr (method, p) ↦
        let h' : (refresh git src method (open_or_clone git src method s)).0 ≡ ok snap =
          rw (pull, p) at h in
        elim (stat_cases (git.stat (git.join src.workdir ".git") s)) [
          | inl a ↦ opened-Follows src method s snap a h'
          | inr g ↦ elim g [
            | inl a ↦ cloned-Follows src method s snap a h'
            | inr a ↦ absurd (unreadable src method s snap a h')
          ]
        ]
  ]
