-- ===== src/Downloader/Completion.antt =====
-- One thread: registering callbacks and completing a download (Downloader.cpp).
use mathlib.Core.List.{Perm, perm_middle}
use mathlib.Core.List.Perm
use filetransferdaemon.Prelude.{
  ℕ, ◌≡◌, ◌⊎◌, Bool-cases, inl, inr, true, false, some, List, [], ◌∷◌, ◌++◌, map, arith, ◌==◌,
  ==_iff, ltb,
}
use filetransferdaemon.Downloader.{
  Downloader, Callbacks, ok, push_callback, register_completion_callback, invoke_callbacks,
  complete, reap_ok, wait_for_completion,
}

-- Once Complete has run on a download that nobody had completed, a second run changes nothing and
-- calls nothing, and the download may be reaped, is not waited for, and takes no callback any more.
pub complete_twice :
    (d : Downloader) (cb payload : ℕ)
    → d.reap_status ≡ ok
    → (complete (complete d).0 ≡ ((complete d).0, []))
      × (reap_ok (complete d).0 ≡ true)
      × (wait_for_completion (complete d).0 ≡ false)
      × (register_completion_callback (some cb) payload (complete d).0 ≡ ((complete d).0, false))
unfolding complete reap_ok wait_for_completion register_completion_callback
complete_twice d cb payload h = ground arith

calls-append :
    (k : ℕ) (ds : List ℕ) (payload : ℕ) (rest : List (ℕ × ℕ))
    → Perm
        (map (λ p. (k, p)) (ds ++ payload ∷ []) ++ rest)
        ((k, payload) ∷ (map (λ p. (k, p)) ds ++ rest))
calls-append k [] payload rest = Perm.refl _
calls-append k (d ∷ ds) payload rest =
    Perm.trans (Perm.cons _ (calls-append k ds payload rest)) (Perm.swap _ _ _)

calls-cons :
    (c : ℕ × ℕ) (xs ys zs : List (ℕ × ℕ)) → Perm ys (c ∷ zs) → Perm (xs ++ ys) (c ∷ (xs ++ zs))
calls-cons c xs ys zs p = Perm.trans (Perm.append (Perm.refl xs) p) (perm_middle xs zs)

-- A pushed callback is called once more than before, and every other as often as before.
pub invoke_callbacks-push_callback :
    (cb payload : ℕ) (m : Callbacks)
    → Perm (invoke_callbacks (push_callback cb payload m)) ((cb, payload) ∷ invoke_callbacks m)
unfolding invoke_callbacks push_callback
invoke_callbacks-push_callback cb payload [] = Perm.refl _
invoke_callbacks-push_callback cb payload ((k, ds) ∷ m) = elim (Bool-cases (k == cb)) [
  | inl same ↦ rw same (rw ((==_iff k cb).0 same) (calls-append cb ds payload (invoke_callbacks m)))
  | inr other ↦ rw other (elim (Bool-cases (ltb cb k)) [
    | inl before ↦ rw before (Perm.refl _)
    | inr after ↦ rw after (calls-cons _ _ _ _ (invoke_callbacks-push_callback cb payload m))
  ])
]

register-ok :
    (cb payload : ℕ) (d : Downloader)
    → (register_completion_callback (some cb) payload d).1 ≡ true
    → (register_completion_callback (some cb) payload d).0
      ≡ record d { callbacks = push_callback cb payload d.callbacks }
unfolding register_completion_callback
register-ok cb payload d h = ground arith

register_refused :
    (cb payload : ℕ) (d : Downloader)
    → (register_completion_callback (some cb) payload d).1 ≡ false
    → (register_completion_callback (some cb) payload d).0 ≡ d
unfolding register_completion_callback
register_refused cb payload d h = ground arith

register-open :
    (cb payload : ℕ) (d : Downloader)
    → (register_completion_callback (some cb) payload d).1 ≡ true
    → d.reap_status ≡ ok
unfolding register_completion_callback
register-open cb payload d h = ground arith

pub complete-calls :
    (d : Downloader) → d.reap_status ≡ ok → (complete d).1 ≡ invoke_callbacks d.callbacks
unfolding complete
complete-calls d h = ground arith

complete-register_accepted :
    (cb payload : ℕ) (d : Downloader)
    → (register_completion_callback (some cb) payload d).1 ≡ true
    → Perm
        (complete (register_completion_callback (some cb) payload d).0).1
        ((cb, payload) ∷ (complete d).1)
complete-register_accepted cb payload d h =
    let open_now = register-open cb payload d h in
    rw
      (
        register-ok cb payload d h,
        complete-calls (record d { callbacks = push_callback cb payload d.callbacks }) open_now,
        complete-calls d open_now,
      )
      (invoke_callbacks-push_callback cb payload d.callbacks)

-- Either RegisterCompletionCallback accepts a callback, and it runs exactly once more when the
-- download completes, or it refuses it and leaves the download as it was.
pub complete-register :
    (cb payload : ℕ) (d : Downloader)
    → ((register_completion_callback (some cb) payload d).1 ≡ true)
        × Perm
            (complete (register_completion_callback (some cb) payload d).0).1
            ((cb, payload) ∷ (complete d).1)
      ⊎ ((register_completion_callback (some cb) payload d).1 ≡ false)
        × ((register_completion_callback (some cb) payload d).0 ≡ d)
complete-register cb payload d =
    elim (Bool-cases (register_completion_callback (some cb) payload d).1) [
      | inl h ↦ inl (h, complete-register_accepted cb payload d h)
      | inr h ↦ inr (h, register_refused cb payload d h)
    ]
