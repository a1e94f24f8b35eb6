-- ===== src/SocketFdDownloader/Laws.antt =====
-- SocketFdDownloader.cpp: how an upload is reached, cancelled and ended.
use filetransferdaemon.Prelude.{
  ℕ, zero, suc, ◌≤◌, ◌≡◌, refl, ap, ◌⊎◌, ◌↔◌, inl, inr, Bool, true, false, List, [], ◌∷◌, ◌++◌, map,
  Text, arith, Bool-cases,
}
use filetransferdaemon.Downloader.{cancel_in_progress, cancel_done, downloaded, failed, status_eq}
use filetransferdaemon.Platform.{Library, unlink, emit}
use filetransferdaemon.SocketFdDownloader.{
  SocketFdDownloader, cancel_download, filter_fields, set_path,
}
use filetransferdaemon.SocketFdDownloader.Files.{FileSystem, clean_up, unlink_all}
use filetransferdaemon.SocketFdDownloader.Run.{
  connect, Part, field_added, file_added, canceled, on_part, on_parts, settle,
}

found_before :
    (answer : ℕ → Bool) (retries n : ℕ)
    → n ≤ suc retries
    → answer n ≡ true
    → answer (suc retries) ≡ false
    → n ≤ retries
found_before answer retries n below hit later = ground arith

-- The upload is connected exactly if one of the attempts with at most `retries` retries left
-- succeeds.
pub connect_lem :
    (answer : ℕ → Bool) (retries : ℕ)
    → (connect answer retries ≡ true) ↔ ((n : ℕ) × (n ≤ retries) × (answer n ≡ true))
unfolding connect
connect_lem answer zero = (λ h. (0, ground arith, h), λ h. ground (arith, h.1, h.2))
connect_lem answer (suc retries) = elim (Bool-cases (answer (suc retries))) [
  | inl now ↦ (λ h. (suc retries, ground arith, now), λ h. ground arith)
  | inr later ↦ (
    λ h.
        let (n, below, hit) = (connect_lem answer retries).0 (rw later at h) in
        (n, ground arith, hit),
    λ (n, below, hit).
        rw later
          ((connect_lem answer retries).1 (n, found_before answer retries n below hit later, hit)),
  )
]

-- A cancelled upload stays cancelled whatever arrives later.
on_part-Canceled :
    (lib : Library) (fs : FileSystem) (p : Part) (c : SocketFdDownloader)
    → c.status ≡ cancel_in_progress
    → (on_part lib fs p c).status ≡ cancel_in_progress
unfolding on_part filter_fields cancel_download set_path
on_part-Canceled lib fs (field_added name value) c h = ground arith
on_part-Canceled lib fs (file_added file name) c h = h
on_part-Canceled lib fs canceled c h = ground arith

on_parts-Canceled :
    (lib : Library) (fs : FileSystem) (ps : List Part) (c : SocketFdDownloader)
    → c.status ≡ cancel_in_progress
    → (on_parts lib fs ps c).status ≡ cancel_in_progress
unfolding on_parts
on_parts-Canceled lib fs [] c h = h
on_parts-Canceled lib fs (p ∷ ps) c h =
    on_parts-Canceled lib fs ps _ (on_part-Canceled lib fs p c h)

unlink_all_lem : (files : List (Text × Text)) → unlink_all files ≡ map (λ f. unlink f.0) files
unfolding unlink_all
unlink_all_lem [] = refl
unlink_all_lem ((file, name) ∷ files) = ap (λ es. unlink file ∷ es) (unlink_all_lem files)

-- The second half of Run leaves an upload downloaded, cancelled or failed, and unless it is
-- downloaded, every temporary file and the socket are unlinked and the failure is announced.
pub settle_lem :
    (lib : Library) (fs : FileSystem) (c : SocketFdDownloader) (err : Bool)
    → ((settle lib fs c err).0.status ≡ downloaded)
      ⊎ ((((settle lib fs c err).0.status ≡ cancel_done)
            ⊎ ((settle lib fs c err).0.status ≡ failed))
          × ((settle lib fs c err).1
              ≡ (map (λ f. unlink f.0) c.cgi.file_names ++ unlink (lib.url_path c.url) ∷ [])
                ++ map emit c.signal_failed))
unfolding settle clean_up status_eq
settle_lem lib fs c err = ground (arith, unlink_all_lem c.cgi.file_names)

-- An upload that was cancelled before some parts arrived ends as cancelled, whatever those parts
-- are and whether or not an error follows.
pub cancel_wins :
    (lib : Library) (fs : FileSystem) (ps : List Part) (c : SocketFdDownloader) (err : Bool)
    → c.status ≡ cancel_in_progress
    → (settle lib fs (on_parts lib fs ps c) err).0.status ≡ cancel_done
unfolding settle status_eq
cancel_wins lib fs ps c err h = ground (arith, on_parts-Canceled lib fs ps c h)
