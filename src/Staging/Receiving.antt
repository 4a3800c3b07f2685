-- ===== src/Staging/Receiving.antt =====
-- How a receipt of runtime/sv08_staging.py ends: its body up to the publication, the `fsync` after it,
-- and the whole call with its cleanup.
use sv08_mainline.Base.{
  ℕ, String, ◌≡◌, refl, ap, subst, inl, inr, zero, suc, false, not, Option, none, some, List, [],
  ◌∷◌, ◌++◌, Result, ok, err, value_error, key_error, os_error, power_loss, arith, if◌then◌else◌,
  length, any,
}
use sv08_mainline.Base.Exec.{
  Reads, Outcome, at_then, at_pure, pure, ◌>>=◌, bind_read, then_read, then_do, ◌>>◌,
}
use sv08_mainline.Registry.{Proof}
use sv08_mainline.Staging.{
  File, Directory, Intake, Answer, named, file_of, change, verify_entry, ensuring, sync, sync_at,
}
use sv08_mainline.Staging.Upload.{
  partial_name, preflight, empty_file, with_bytes, read_only, renamed, publish, receive_into,
  receive_file, clean_up, receive_locked,
}
use sv08_mainline.Staging.Chunks.{receive_chunks_returns}
use sv08_mainline.Staging.Files.{
  file_of-append, change-append, at_update, path-ne_partial, only_lock, lock-ne_partial,
}
use sv08_mainline.Staging.Finishing.{Published, Partial, Received, Written, finish-Received}

module _ (intake : Intake) (size : ℕ) (digest : Option String) (before : List (String × File))
    (free : file_of (partial_name intake) before ≡ none) where
  verify_entry-ok :
      (f : File) (actual : String) (proof : Proof)
      → verify_entry intake (some f) actual ≡ ok proof
      → intake.verify f ≡ ok proof
  unfolding verify_entry
  verify_entry-ok f actual proof h = ground arith

  publish-Received :
      (received : List ℕ) (f : File) (d : Directory)
      → d.files ≡ before ++ (partial_name intake, f) ∷ []
      → f.bytes ≡ received
      → f.mode ≡ 256
      → length received ≡ size
      → Outcome
          (λ r v. Published intake size digest before r v.files)
          (λ v. Partial intake size digest before v.files)
          (publish intake digest received d)
  unfolding publish renamed
  publish-Received received f d e b m n =
      let here : Partial intake size digest before d.files = inr (f, e) in
      let there : file_of (partial_name intake) d.files ≡ some f =
        rw e (file_of-append (partial_name intake) before f free) in
      then_read _ _ _ here λ _ _. bind_read _ _ _ here λ v q. bind_read _ _ _ here λ proof p.
        bind_read _ _ _ here λ destination a. then_read _ _ _ here λ _ _. at_then _ _ _ (
          at_update _ d here (λ k. at_pure _ _ (record {
            file = f;
            files_new =
                rw e (change-append (partial_name intake) (renamed destination) before f free);
            complete = rw b n;
            protected = m;
            addressed = rw b a;
            verified = verify_entry-ok f (intake.sha256 received) proof (checked v q proof p there);
          })))
    where
      checked :
          (v : Directory)
          → ok d ≡ ok v
          → (proof : Proof)
          → verify_entry intake (file_of (partial_name intake) v.files) (intake.sha256 received)
            ≡ ok proof
          → file_of (partial_name intake) d.files ≡ some f
          → verify_entry intake (some f) (intake.sha256 received) ≡ ok proof
      checked v q proof p t =
          let same : v ≡ d = cc in
          subst (λ (o : Option File). verify_entry intake o (intake.sha256 received) ≡ ok proof) t
            (subst
              (λ (x : Directory).
                verify_entry intake (file_of (partial_name intake) x.files) (intake.sha256 received)
                ≡ ok proof)
              same p)

  receive_file-Outcome :
      (stream : List Answer) (d : Directory)
      → d.files ≡ before
      → Outcome
          (λ r v. Published intake size digest before r v.files)
          (λ v. Partial intake size digest before v.files)
          (receive_file intake stream size digest d)
  unfolding receive_file with_bytes read_only
  receive_file-Outcome stream d e = bind_read _ _ _ (inl e) λ _ _. then_read _ _ _ (inl e) λ _ _.
      at_then _ _ _ (
        at_update _ d (inl e) (λ k.
          let start : (d.files ++ (partial_name intake, empty_file intake) ∷ [])
              ≡ before ++ (partial_name intake, empty_file intake) ∷ [] =
            rw e refl in
          let at_start : Partial intake size digest before
              (d.files ++ (partial_name intake, empty_file intake) ∷ []) =
            inr (empty_file intake, start) in
          bind_read _ _ _ at_start λ received r. then_read _ _ _ at_start λ _ _. at_then _ _ _ (
            at_update _ _ at_start (λ j.
              let written : File = record (empty_file intake) { bytes = received.0 } in
              let second : change (partial_name intake) (with_bytes received.0)
                    (d.files ++ (partial_name intake, empty_file intake) ∷ [])
                  ≡ before ++ (partial_name intake, written) ∷ [] =
                rw e (
                  change-append (partial_name intake) (with_bytes received.0) before
                    (empty_file intake) free) in
              at_then _ _ _ (
                at_update _ _ (inr (written, second)) (λ i.
                  publish-Received received.0 (record written { mode = 256 }) _
                    (rw second (change-append (partial_name intake) read_only before written free))
                    refl refl
                    (omega (arith, (receive_chunks_returns size stream [] received r).0))))))))

  -- the `fsync` after the publication
  synced-Written :
      (x : Result (String × Proof) × Directory)
      → Outcome
          (λ r v. Published intake size digest before r v.files)
          (λ v. Partial intake size digest before v.files)
          x
      → Written intake size digest before
          (then_do x.0 (λ r. sync intake.published_error >> pure r) x.1)
  unfolding sync ◌>>◌
  synced-Written (ok result, d) h = go intake.published_error d.power
    where
      go :
          (failure : Option String) (n : ℕ)
          → Written intake size digest before
              (then_do (sync_at failure d n).0 (λ _. pure result) (sync_at failure d n).1)
      go failure zero = inr (result, h.holds)
      go none (suc n) = h.holds
      go (some m) (suc n) = inr (result, h.holds)
  synced-Written (err (value_error m), d) h = h.holds
  synced-Written (err (key_error m), d) h = h.holds
  synced-Written (err (os_error m), d) h = inl h.holds
  synced-Written (err power_loss, d) h = inl h.holds

  receive_into-Written :
      (stream : List Answer) (d : Directory)
      → d.files ≡ before
      → Written intake size digest before (receive_into intake stream size digest d)
  unfolding receive_into ◌>>=◌
  receive_into-Written stream d e =
      synced-Written (receive_file intake stream size digest d) (receive_file-Outcome stream d e)

module _ (intake : Intake) (stream : List Answer) (size : ℕ) (digest : Option String)
    (d : Directory) where
  preflight-Reads :
      Reads (λ _. file_of (partial_name intake) d.files ≡ none) d (preflight intake size d)
  unfolding preflight
  preflight-Reads = then_read _ _ _ refl λ _ _. bind_read _ _ _ refl λ v q.
      then_read _ _ _ refl λ a h. bind_read _ _ _ refl λ _ _.
        at_pure _ _
          (refl, only_lock (partial_name intake) d.files (lock-ne_partial intake) (locks v q a h))
    where
      locks :
          (v : Directory)
          → ok d ≡ ok v
          → (a : Unit {0})
          → (if any (λ f. not (named ".lock" f)) v.files
              then err (value_error "Resolve existing staged or interrupted uploads first")
              else ok tt)
            ≡ ok a
          → any (λ f. not (named ".lock" f)) d.files ≡ false
      locks v q a h =
          let same : v ≡ d = cc in
          subst (λ (x : Directory). any (λ f. not (named ".lock" f)) x.files ≡ false) same
            (ground (arith, h))

  -- However a receipt of an upload ends: if it returns, the directory has one more file, read-only
  -- and as long as declared, under the digest of its bytes, and that file was verified. If it refuses
  -- the upload, the directory is as it was. A failing call of the system leaves it as it was or with
  -- the whole verified file, or, if the partial upload could not be unlinked, with that; a machine that
  -- stops leaves one of the three.
  pub receive_locked-Received :
      Received intake size digest d.files (receive_locked intake stream size digest d)
  unfolding receive_locked ensuring ◌>>◌
  receive_locked-Received = go (preflight intake size d) preflight-Reads
    where
      go :
          (x : Result (Unit {0}) × Directory)
          → Reads (λ _. file_of (partial_name intake) d.files ≡ none) d x
          → Received intake size digest d.files (
              then_do x.0
                (λ _. ensuring (receive_into intake stream size digest) (clean_up intake))
                x.1)
      go (err (value_error m), v) h = ap (λ (x : Directory). x.files) h.holds
      go (err (key_error m), v) h = ap (λ (x : Directory). x.files) h.holds
      go (err (os_error m), v) h = inl (ap (λ (x : Directory). x.files) h.holds)
      go (err power_loss, v) h = inl (inl (ap (λ (x : Directory). x.files) h.holds))
      go (ok u, v) h =
          finish-Received intake size digest d.files h.holds.1 (path-ne_partial intake)
            (receive_into intake stream size digest v)
            (receive_into-Written intake size digest d.files h.holds.1 stream v
              (ap (λ (x : Directory). x.files) h.holds.0))
