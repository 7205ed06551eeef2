-- ===== src/Git.antt =====
-- src/git.rs: the branches of the repository, over the crate git2.
pub mod Listed
use outpack_server.Io.FilePath.{FilePath, split}
use outpack_server.Prelude.{
  Bool, List, Option, Text, [], codes, keep, list_eq, nat_eq, none, not, some, strip_prefix, true,
  ℕ, ◌==◌, ◌∷◌,
}
use outpack_server.Result.{Result, and_then, collect, err, map_ok, ok, panicked, ◌>>=◌}

-- An error of git2: its message, and its code as it is printed.
pub record GitError : Type 0 where
  pub message : Text
  pub code : Text

abbrev pub GitResult {ℓ} : Type ℓ → Type ℓ
GitResult A = Result GitError A

-- What the program asks of git2: a repository is opened by its path, and its values are kept shut.
-- `branches` gives each remote branch or an error in its place. The texts of references and commits
-- are those that `from_utf8_lossy` gives, and a time is the bits of an `i64`.
pub record Git : Type 1 where
  pub Repository : Type 0
  pub Remote : Type 0
  pub Branch : Type 0
  pub Reference : Type 0
  pub Commit : Type 0
  pub open_repository : FilePath → GitResult Repository
  pub find_remote : Repository → Text → GitResult Remote
  pub fetch_refspecs : Remote → GitResult (List (Option Text))
  pub fetch : Remote → List Text → GitResult (Unit {0})
  pub find_branch : Repository → Text → GitResult Branch
  pub branches : Repository → GitResult (List (GitResult Branch))
  pub branch_name : Branch → Option Text
  pub resolve : Branch → GitResult Reference
  pub reference_name : Reference → Text
  pub peel_to_commit : Reference → GitResult Commit
  pub commit_id : Commit → Text
  pub commit_time : Commit → ℕ
  pub commit_message : Commit → Text

pub record BranchInfo : Type 0 where
  pub name : Text
  pub commit_hash : Text
  pub time : ℕ
  pub message : List Text

pub record BranchResponse : Type 0 where
  pub default_branch : Option Text
  pub branches : List BranchInfo

-- `get_branch_name`, of the name of a reference.
unfoldable pub get_branch_name : Text → Text
get_branch_name t = elim (strip_prefix (codes "refs/remotes/origin/") t) [ none ↦ t | some n ↦ n ]

-- `split_terminator("\n")`: a last piece that is empty is left out.
abbrev pub drop_last_empty : List Text → List Text
drop_last_empty [] = []
drop_last_empty ([] ∷ []) = []
drop_last_empty (t ∷ ts) = t ∷ drop_last_empty ts

unfoldable pub message_lines : Text → List Text
unfolding split
message_lines t = drop_last_empty (split b'\n' t)

-- `spec.unwrap()`: a refspec that is not UTF-8 is a panic.
unfoldable pub unwrap_all : List (Option Text) → GitResult (List Text)
unfolding collect
unwrap_all specs = collect (λ o. elim o [ none ↦ panicked | some t ↦ ok t ]) specs

module _ (git : Git) where
  unfoldable pub git_fetch : FilePath → GitResult (Unit {0})
  unfolding unwrap_all
  git_fetch root = do
    repo ← git.open_repository root
    remote ← git.find_remote repo (codes "origin")
    specs ← git.fetch_refspecs remote
    ref_specs ← unwrap_all specs
    git.fetch remote ref_specs

  unfoldable pub get_branch_info : git.Branch → GitResult BranchInfo
  unfolding get_branch_name message_lines
  get_branch_info branch = do
    git_ref ← git.resolve branch
    commit ← git.peel_to_commit git_ref
    ok (record {
      name = get_branch_name (git.reference_name git_ref);
      commit_hash = git.commit_id commit;
      time = git.commit_time commit;
      message = message_lines (git.commit_message commit);
    })

  -- `origin/HEAD`, where it is there: that it cannot be resolved is an error.
  unfoldable pub get_default_branch : git.Repository → GitResult (Option Text)
  get_default_branch repo = elim (git.find_branch repo (codes "origin/HEAD")) [
    | ok branch ↦ map_ok (λ r. some (get_branch_name (git.reference_name r))) (git.resolve branch)
    | err _ ↦ ok none
    | panicked ↦ panicked
  ]

  abbrev is_listed : GitResult git.Branch → Bool
  is_listed (ok branch) = elim (git.branch_name branch) [
    | some n ↦ not (n == codes "origin/HEAD")
    | none ↦ true
  ]
  is_listed _ = true

  unfoldable pub git_list_branches : FilePath → GitResult BranchResponse
  unfolding get_default_branch get_branch_info collect
  git_list_branches root = do
    repo ← git.open_repository root
    default_branch ← get_default_branch repo
    found ← git.branches repo
    infos ← collect (λ b. and_then b get_branch_info) (keep is_listed found)
    ok (record { default_branch = default_branch; branches = infos })
