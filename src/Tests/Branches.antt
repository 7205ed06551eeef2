-- ===== src/Tests/Branches.antt =====
-- src/git.rs: the branches of a repository with two of them and `origin/HEAD`.

use outpack_server.Git.{
  BranchInfo, Git, GitResult, get_branch_info, get_branch_name, get_default_branch,
  git_list_branches, message_lines,
}
use outpack_server.Git.Listed.{Lists, git_list_branches-eq-ok_iff}
use outpack_server.Io.FilePath.{split}
use outpack_server.Prelude.{
  List, Text, [], codes, list_eq, nat_eq, none, refl, some, ◌++◌, ◌↔◌, ◌∷◌, ◌≡◌,
}
use outpack_server.Result.{err, ok}

abbrev no_branch {ℓ} : {A : Type ℓ} → GitResult A
no_branch =
    err (record { message = codes "cannot locate remote-tracking branch"; code = codes "NotFound" })

abbrev names : List (GitResult Text)
names = ok (codes "origin/HEAD") ∷ ok (codes "origin/main") ∷ ok (codes "up/main") ∷ []

-- A branch is its name.
abbrev two_branches : Git
two_branches = record {
  Repository = Unit {0};
  Remote = Unit {0};
  Branch = Text;
  Reference = Text;
  Commit = Text;
  open_repository = λ _. ok tt;
  find_remote = λ _ _. no_branch;
  fetch_refspecs = λ _. no_branch;
  fetch = λ _ _. no_branch;
  find_branch = λ _ _. no_branch;
  branches = λ _. ok names;
  branch_name = λ b. some b;
  resolve = λ b. ok (codes "refs/remotes/" ++ b);
  reference_name = λ r. r;
  peel_to_commit = λ r. ok r;
  commit_id = λ _. codes "04a5";
  commit_time = λ _. 7;
  commit_message = λ _. codes "one\n\ntwo\n";
}

abbrev info_of : Text → BranchInfo
info_of n = record {
  name = n;
  commit_hash = codes "04a5";
  time = 7;
  message = codes "one" ∷ [] ∷ codes "two" ∷ [];
}

abbrev infos : List BranchInfo
infos = info_of (codes "main") ∷ info_of (codes "refs/remotes/up/main") ∷ []

no_default : get_default_branch two_branches tt ≡ ok none
unfolding get_default_branch
no_default = refl

branches_listed :
    git_list_branches two_branches [] ≡ ok (record { default_branch = none; branches = infos })
unfolding git_list_branches get_default_branch get_branch_info get_branch_name message_lines split
    list_eq nat_eq
branches_listed = refl

git_list_branches-eq-ok_iff_example :
    (git_list_branches two_branches [] ≡ ok (record { default_branch = none; branches = infos }))
    ↔ Lists two_branches names infos
git_list_branches-eq-ok_iff_example =
    git_list_branches-eq-ok_iff two_branches [] tt names none infos refl refl no_default
