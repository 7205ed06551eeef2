-- ===== src/Git/Listed.antt =====
-- src/git.rs, `git_list_branches`: the branches that are listed.

use outpack_server.Git.{
  BranchInfo, Git, GitResult, get_branch_info, get_branch_name, get_default_branch,
  git_list_branches, is_listed, message_lines,
}
use outpack_server.Io.FilePath.{FilePath}
use outpack_server.Prelude.{
  ==_iff, Bool-cases, List, Option, Option-cases, Text, [], ap, arith, codes, false, inl, inr, keep,
  list_eq, nat_eq, refl, some, strip_prefix, subst, sym, true, ◌++◌, ◌==◌, ◌↔◌, ◌∙◌, ◌∷◌, ◌≡◌, ◌≢◌,
  ◌⊎◌,
}
use outpack_server.Result.{>>=-eq-ok, and_then, collect, ok}

abbrev pub origin : Text
origin = codes "refs/remotes/origin/"

-- The name is what follows `refs/remotes/origin/`, or all of the reference.
abbrev pub IsNameOf : Text → Text → Type 0
IsNameOf name reference =
    (reference ≡ origin ++ name) ⊎ (((t : Text) → reference ≢ origin ++ t) × (name ≡ reference))

module _ (git : Git) where
  -- What is known of a branch is that of the commit at its tip.
  pub record IsInfoOf (branch : git.Branch) (info : BranchInfo) : Type 0 where
    pub reference : git.Reference
    pub commit : git.Commit
    pub resolved : git.resolve branch ≡ ok reference
    pub peeled : git.peel_to_commit reference ≡ ok commit
    pub named : IsNameOf info.name (git.reference_name reference)
    pub hashed : info.commit_hash ≡ git.commit_id commit
    pub timed : info.time ≡ git.commit_time commit
    pub said : info.message ≡ message_lines (git.commit_message commit)

  -- All branches but `origin/HEAD`, in the order in which git gives them.
  pub data Lists : List (GitResult git.Branch) → List BranchInfo → Type 0 where
    done : Lists [] []
    passed :
        {found : List (GitResult git.Branch)} {infos : List BranchInfo} (branch : git.Branch)
        → git.branch_name branch ≡ some (codes "origin/HEAD")
        → Lists found infos
        → Lists (ok branch ∷ found) infos
    listed :
        {found : List (GitResult git.Branch)} {infos : List BranchInfo} (branch : git.Branch)
        (info : BranchInfo)
        → git.branch_name branch ≢ some (codes "origin/HEAD")
        → IsInfoOf branch info
        → Lists found infos
        → Lists (ok branch ∷ found) (info ∷ infos)

strip_prefix-eq-some : (p t n : Text) → strip_prefix p t ≡ some n → t ≡ p ++ n
strip_prefix-eq-some [] t n e = cc
strip_prefix-eq-some (c ∷ p) [] n e = cc
strip_prefix-eq-some (c ∷ p) (d ∷ t) n e = ground (arith, strip_prefix-eq-some p t n)

strip_prefix-append : (p n : Text) → strip_prefix p (p ++ n) ≡ some n
strip_prefix-append [] n = refl
strip_prefix-append (c ∷ p) n = ground (arith, strip_prefix-append p n)

get_branch_name-IsNameOf : (t : Text) → IsNameOf (get_branch_name t) t
unfolding get_branch_name
get_branch_name-IsNameOf t = elim (Option-cases (strip_prefix origin t)) [
  | inl h ↦
      let whole : get_branch_name t ≡ t = rw h refl in
      inr ((λ n e. cc (h, e, strip_prefix-append origin n)), whole)
  | inr (n, h) ↦
      let short : get_branch_name t ≡ n = rw h refl in
      inl (strip_prefix-eq-some origin t n h ∙ ap (λ x. origin ++ x) (sym short))
]

IsNameOf-get_branch_name : (name t : Text) → IsNameOf name t → name ≡ get_branch_name t
unfolding get_branch_name
IsNameOf-get_branch_name name t (inl e) = rw e refl
IsNameOf-get_branch_name name t (inr (apart, same)) = elim (Option-cases (strip_prefix origin t)) [
  | inl h ↦ rw h same
  | inr (n, h) ↦ absurd (apart n (strip_prefix-eq-some origin t n h))
]

module _ (git : Git) where
  get_branch_info-IsInfoOf :
      (branch : git.Branch) (info : BranchInfo)
      → get_branch_info git branch ≡ ok info
      → IsInfoOf git branch info
  unfolding get_branch_info
  get_branch_info-IsInfoOf branch info e =
      let (r, resolved, e1) = >>=-eq-ok (git.resolve branch) _ e in
      let (c, peeled, e2) = >>=-eq-ok (git.peel_to_commit r) _ e1 in
      let same : record {
        name = get_branch_name (git.reference_name r);
        commit_hash = git.commit_id c;
        time = git.commit_time c;
        message = message_lines (git.commit_message c);
      }
          ≡ info =
        cc in
      subst (IsInfoOf git branch) same (record {
        reference = r;
        commit = c;
        resolved = resolved;
        peeled = peeled;
        named = get_branch_name-IsNameOf (git.reference_name r);
        hashed = refl;
        timed = refl;
        said = refl;
      })

  IsInfoOf-get_branch_info :
      (branch : git.Branch) (info : BranchInfo)
      → IsInfoOf git branch info
      → get_branch_info git branch ≡ ok info
  unfolding get_branch_info
  IsInfoOf-get_branch_info branch info i =
      let named = IsNameOf-get_branch_name info.name (git.reference_name i.reference) i.named in
      rw (i.resolved, i.peeled, ← named, ← i.hashed, ← i.timed, ← i.said) refl

  abbrev IsHead : git.Branch → Type 0
  IsHead branch = git.branch_name branch ≡ some (codes "origin/HEAD")

  IsHead-is_listed : (branch : git.Branch) → IsHead branch → is_listed git (ok branch) ≡ false
  unfolding list_eq nat_eq
  IsHead-is_listed branch e = rw (is_listed, e) refl

  -- Either a branch is the default one and left out, or it is listed.
  is_listed-cases :
      (branch : git.Branch)
      → IsHead branch ⊎ (¬ (IsHead branch) × (is_listed git (ok branch) ≡ true))
  is_listed-cases branch = elim (Option-cases (git.branch_name branch)) [
    | inl h ↦ inr ((λ e. cc (h, e)), rw (is_listed, h) refl)
    | inr (n, h) ↦ elim (Bool-cases (n == codes "origin/HEAD")) [
      | inl same ↦ inl (h ∙ ap some ((==_iff n (codes "origin/HEAD")).0 same))
      | inr apart ↦
          let there : is_listed git (ok branch) ≡ true = rw (is_listed, h, apart) refl in
          inr ((λ e. cc (there, IsHead-is_listed branch e)), there)
    ]
  ]

  abbrev infos_of : List (GitResult git.Branch) → GitResult (List BranchInfo)
  infos_of found = collect (λ b. and_then b (get_branch_info git)) (keep (is_listed git) found)

  infos_of-Lists :
      (found : List (GitResult git.Branch)) (infos : List BranchInfo)
      → infos_of found ≡ ok infos
      → Lists git found infos
  unfolding collect
  infos_of-Lists [] infos e = let same : [] ≡ infos = cc in subst (Lists git []) same done
  infos_of-Lists (ok branch ∷ found) infos e = elim (is_listed-cases branch) [
    | inl head ↦
        passed branch head (infos_of-Lists found infos (rw (IsHead-is_listed branch head) at e))
    | inr (apart, h) ↦
        let (info, i, e1) = >>=-eq-ok (get_branch_info git branch) _ (rw h at e) in
        let (rest, k, e2) = >>=-eq-ok (infos_of found) _ e1 in
        let same : (info ∷ rest) ≡ infos = cc in
        subst (Lists git (ok branch ∷ found)) same (
          listed branch info apart (get_branch_info-IsInfoOf branch info i)
            (infos_of-Lists found rest k))
  ]
  infos_of-Lists (_ ∷ found) infos e = cc

  Lists-infos_of :
      (found : List (GitResult git.Branch)) (infos : List BranchInfo)
      → Lists git found infos
      → infos_of found ≡ ok infos
  unfolding collect
  Lists-infos_of _ _ done = refl
  Lists-infos_of _ _ (passed branch head l) =
      rw (IsHead-is_listed branch head) (Lists-infos_of _ _ l)
  Lists-infos_of _ _ (listed branch info apart i l) = elim (is_listed-cases branch) [
    | inl head ↦ absurd (apart head)
    | inr (_, h) ↦ rw (h, IsInfoOf-get_branch_info branch info i, Lists-infos_of _ _ l) refl
  ]

  -- Where the repository opens, its branches are read and the default branch is resolved or not
  -- there, `git_list_branches` succeeds with exactly the infos of all branches but `origin/HEAD`,
  -- in their order: each has the name without `refs/remotes/origin/`, and the commit at its tip.
  pub git_list_branches-eq-ok_iff :
      (root : FilePath) (repo : git.Repository) (found : List (GitResult git.Branch))
      (default_branch : Option Text) (infos : List BranchInfo)
      → git.open_repository root ≡ ok repo
      → git.branches repo ≡ ok found
      → get_default_branch git repo ≡ ok default_branch
      → (git_list_branches git root
          ≡ ok (record { default_branch = default_branch; branches = infos }))
        ↔ Lists git found infos
  unfolding git_list_branches
  git_list_branches-eq-ok_iff root repo found default_branch infos at_root read resolved = (
    (λ e.
        let (l, k, e1) = >>=-eq-ok (infos_of found) _ (rw (at_root, resolved, read) at e) in
        let same : l ≡ infos = cc in infos_of-Lists found infos (k ∙ ap ok same)),
    λ l. rw (at_root, resolved, read, Lists-infos_of found infos l) refl,
  )
