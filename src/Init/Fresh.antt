-- ===== src/Init/Fresh.antt =====
-- src/init.rs, `outpack_init`: what it leaves behind.
use outpack_server.Config.{Config, Core, new_config, same_core}
use outpack_server.Config.File.{config_path, outpack_dir, read_config, write_config}
use outpack_server.Init.{
  check_unchanged, compare_config, create_archive, create_files, create_parts, init_at,
  make_repository, outpack_init,
}
use outpack_server.Io.Binds.{>>=-after, >>=-run-eq-ok}
use outpack_server.Io.FilePath.{FilePath, join}
use outpack_server.Io.Fs.{Fs, create, create_dir_all, exists, reads, write, ◌>>◌}
use outpack_server.Io.Keeps.{create_dir_all-exists, create_dir_all-made, write-exists}
use outpack_server.Io.Laws.{create_dir_all-file_at, file_at, read_file_of, write-file_at}
use outpack_server.Json.{IsLawful, Json}
use outpack_server.Locations.Read.{location_dir}
use outpack_server.Prelude.{
  Bool, Bool-cases, Bytes, Option, Text, [], arith, codes, false, inl, inr, none, refl, some, subst,
  sym, true, ◌∙◌, ◌≡◌,
}
use outpack_server.Result.{ok}

module _ (json : Json) (root : FilePath) where
  check_unchanged-reads : (cfg : Config) (fs : Fs) → (check_unchanged json root cfg fs).1 ≡ fs
  unfolding check_unchanged
  check_unchanged-reads cfg fs =
      >>=-after (compare_config json cfg) (λ fs'. fs' ≡ fs)
        (reads (λ fs'. read_config json fs' root)) fs refl
        (λ prev _. elim (Bool-cases (same_core cfg.core prev.core)) [ inl h ↦ rw h | inr h ↦ rw h ])

  -- Where `.outpack` is there, `outpack_init` changes nothing on the disk, whatever comes of it.
  outpack_init-unchanged :
      (path_archive : Option Text) (use_file_store require_complete_tree : Bool) (fs : Fs)
      → exists fs (outpack_dir root) ≡ true
      → (outpack_init json root path_archive use_file_store require_complete_tree fs).1 ≡ fs
  unfolding outpack_init
  outpack_init-unchanged path_archive use_file_store require_complete_tree fs e =
      >>=-after (init_at json root) (λ fs'. fs' ≡ fs)
        (reads (λ _. new_config path_archive use_file_store require_complete_tree)) fs refl
        (λ cfg _. rw e (check_unchanged-reads cfg fs))

  -- The configuration is at its path, and the directory of the repository is there.
  abbrev Configured : Bytes → Fs → Type 0
  Configured c fs = (file_at fs (config_path root) ≡ some c) × (exists fs (outpack_dir root) ≡ true)

  create_dir_all-Configured :
      (c : Bytes) (p : FilePath) (fs : Fs) → Configured c fs → Configured c (create_dir_all p fs).1
  create_dir_all-Configured c p fs (e, d) = (
    create_dir_all-file_at p fs (config_path root) ∙ e,
    create_dir_all-exists p fs (outpack_dir root) d,
  )

  create_files-Configured :
      (c : Bytes) (use_file_store : Bool) (fs : Fs)
      → Configured c fs
      → Configured c (create_files root use_file_store fs).1
  unfolding create_files
  create_files-Configured c true fs h =
      create_dir_all-Configured c (join (outpack_dir root) (codes "files")) fs h
  create_files-Configured c false fs h = h

  create_archive-Configured :
      (c : Bytes) (path_archive : Option Text) (fs : Fs)
      → Configured c fs
      → Configured c (create_archive root path_archive fs).1
  unfolding create_archive
  create_archive-Configured c none fs h = h
  create_archive-Configured c (some path) fs h = create_dir_all-Configured c (join root path) fs h

  create_parts-Configured :
      (c : Bytes) (core : Core) (fs : Fs)
      → Configured c fs
      → Configured c (create_parts root core fs).1
  unfolding create_parts
  create_parts-Configured c core fs h =
      let p1 = join (location_dir root) (codes "local") in
      let p2 = join (outpack_dir root) (codes "metadata") in
      let fs1 = (create_dir_all p1 fs).1 in
      let fs2 = (create_dir_all p2 fs1).1 in
      let fs3 = (create_files root core.use_file_store fs2).1 in
      let h1 = create_dir_all-Configured c p1 fs h in
      let h2 = create_dir_all-Configured c p2 fs1 h1 in
      let h3 = create_files-Configured c core.use_file_store fs2 h2 in
      let rest = create_archive root core.path_archive in
      let files = create_files root core.use_file_store in
      >>=-after (λ _. create_dir_all p2 >> (files >> rest)) (Configured c) (create_dir_all p1) fs h1
        (λ _ _.
          >>=-after (λ _. files >> rest) (Configured c) (create_dir_all p2) fs1 h2
            (λ _ _.
              >>=-after (λ _. rest) (Configured c) files fs2 h3
                (λ _ _. create_archive-Configured c core.path_archive fs3 h3)))

  write_config-file_at :
      (cfg : Config) (fs : Fs)
      → (write_config json cfg root fs).0 ≡ ok tt
      → file_at (write_config json cfg root fs).1 (config_path root) ≡ some (json.config_to cfg)
  unfolding write_config
  write_config-file_at cfg fs e =
      let path = config_path root in
      let bytes = json.config_to cfg in
      let (_, _, e1, same) = >>=-run-eq-ok (λ _. write path bytes) (create path) fs e in
      rw same (ground (arith, write-file_at path bytes (create path fs).1 path))

  write_config-exists :
      (cfg : Config) (fs : Fs) (q : FilePath)
      → exists fs q ≡ true
      → exists (write_config json cfg root fs).1 q ≡ true
  unfolding write_config create
  write_config-exists cfg fs q h =
      let path = config_path root in
      let bytes = json.config_to cfg in
      let made = write-exists path [] fs q h in
      >>=-after (λ _. write path bytes) (λ fs'. exists fs' q ≡ true) (create path) fs made
        (λ _ _. write-exists path bytes (create path fs).1 q made)

  read_config_of :
      (cfg : Config) (fs : Fs)
      → IsLawful json
      → file_at fs (config_path root) ≡ some (json.config_to cfg)
      → read_config json fs root ≡ ok cfg
  unfolding read_config
  read_config_of cfg fs lawful e =
      rw (read_file_of fs (config_path root) (json.config_to cfg) e)
        (lawful.config_of-config_to cfg)

  make_repository-Configured :
      (cfg : Config) (fs : Fs)
      → (make_repository json root cfg fs).0 ≡ ok tt
      → Configured (json.config_to cfg) (make_repository json root cfg fs).1
  unfolding make_repository
  make_repository-Configured cfg fs e =
      let parts = create_parts root cfg.core in
      let (_, made, e1, s1) =
        >>=-run-eq-ok (λ _. write_config json cfg root >> parts) (create_dir_all (outpack_dir root))
          fs e in
      let fs1 = (create_dir_all (outpack_dir root) fs).1 in
      let (_, wrote, e2, s2) = >>=-run-eq-ok (λ _. parts) (write_config json cfg root) fs1 e1 in
      let fs2 = (write_config json cfg root fs1).1 in
      subst (Configured (json.config_to cfg)) (sym (s1 ∙ s2)) (
        create_parts-Configured (json.config_to cfg) cfg.core fs2 (
          write_config-file_at cfg fs1 wrote,
          write_config-exists cfg fs1 (outpack_dir root)
              (create_dir_all-made (outpack_dir root) fs made),
        ))

  -- Where `.outpack` is not there, configurations that are written read back, and `outpack_init`
  -- succeeds, its directory is there after it and the configuration that was asked for reads back.
  pub outpack_init-read_config :
      (path_archive : Option Text) (use_file_store require_complete_tree : Bool) (fs : Fs)
      → IsLawful json
      → exists fs (outpack_dir root) ≡ false
      → (outpack_init json root path_archive use_file_store require_complete_tree fs).0 ≡ ok tt
      → let fs' = (outpack_init json root path_archive use_file_store require_complete_tree fs).1 in
        (exists fs' (outpack_dir root) ≡ true)
        × ((cfg : Config) × (new_config path_archive use_file_store require_complete_tree ≡ ok cfg)
            × (read_config json fs' root ≡ ok cfg))
  unfolding outpack_init
  outpack_init-read_config path_archive use_file_store require_complete_tree fs lawful new e =
      let (cfg, c, e1, same) =
        >>=-run-eq-ok (init_at json root)
          (reads (λ _. new_config path_archive use_file_store require_complete_tree)) fs e in
      let (written, there) = make_repository-Configured cfg fs (rw new at e1) in
      let at : (outpack_init json root path_archive use_file_store require_complete_tree fs).1
          ≡ (make_repository json root cfg fs).1 =
        rw new at same in
      rw at
        (there, (cfg, c, read_config_of cfg (make_repository json root cfg fs).1 lawful written))
