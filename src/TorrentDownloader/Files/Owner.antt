-- ===== src/TorrentDownloader/Files/Owner.antt =====
-- TorrentDownloader.cpp: whatever its threads do, the torrent stays the user's own.
use mathlib.Core.Path.{subst}
use filetransferdaemon.Prelude.{arith, Bool, ℕ, List, Text}
use filetransferdaemon.Downloader.{complete, claim, conclude, update_progress}
use filetransferdaemon.Downloader.Owner.{Keeps}
use filetransferdaemon.TorrentDownloader.{
  TorrentDownloader, Added, added, invalid_file, invalid_encoding, duplicate, change_permissions,
  do_cancel, add_download, fail_add, describe, http_failed, end_failed, update, download_done,
}
use filetransferdaemon.TorrentDownloader.Files.{
  Place, do_write_resume_data, write_torrent, http_done, fetched, do_cleanup, resume_name,
}
use filetransferdaemon.TorrentDownloader.Files.Ends.{write_torrent-Silent}

pub change_permissions-Keeps :
    (found : Text → List Text) (names : List Text) (t : TorrentDownloader)
    → Keeps t.base (change_permissions found names t).0.base
unfolding change_permissions
change_permissions-Keeps found names t = ground arith

pub do_cancel-Keeps : (t : TorrentDownloader) → Keeps t.base (do_cancel t).0.base
unfolding do_cancel complete claim conclude
do_cancel-Keeps t = ground arith

pub http_failed-Keeps :
    (message : Text) (t : TorrentDownloader) → Keeps t.base (http_failed message t).0.base
unfolding http_failed
http_failed-Keeps message t = ground arith

pub end_failed-Keeps : (t : TorrentDownloader) → Keeps t.base (end_failed t).0.base
unfolding end_failed complete claim conclude
end_failed-Keeps t = ground arith

pub do_cleanup-Keeps :
    (answers : List Bool) (t : TorrentDownloader) → Keeps t.base (do_cleanup answers t).0.base
unfolding do_cleanup
do_cleanup-Keeps answers t = ground arith

pub update-Keeps :
    (wanted wanted_done : ℕ) (t : TorrentDownloader)
    → Keeps t.base (update wanted wanted_done t).base
unfolding update update_progress
update-Keeps wanted wanted_done t = ground arith

pub do_write_resume_data-Keeps :
    (e : Place) (t : TorrentDownloader) → Keeps t.base (do_write_resume_data e t).0.base
unfolding do_write_resume_data
do_write_resume_data-Keeps e t = ground arith

pub download_done-Keeps : (t : TorrentDownloader) → Keeps t.base (download_done t).0.base
unfolding download_done complete claim conclude
download_done-Keeps t = ground arith

add_download-Keeps :
    (resume : Text) (answer : Added) (t : TorrentDownloader)
    → Keeps t.base (add_download resume answer t).0.0.base
unfolding add_download fail_add describe update_progress
add_download-Keeps resume (added h name size) t = ground arith
add_download-Keeps resume invalid_file t = ground arith
add_download-Keeps resume invalid_encoding t = ground arith
add_download-Keeps resume (duplicate name size) t = ground arith

fetched-Keeps :
    (e : Place) (answer : Added) (t : TorrentDownloader) → Keeps t.base (fetched e answer t).0.base
unfolding fetched
fetched-Keeps e answer t =
    let written = (write_torrent e t).0 in
    subst (λ d. Keeps d (fetched e answer t).0.base) (write_torrent-Silent e t).0
      (add_download-Keeps (resume_name e written) answer written)

pub http_done-Keeps :
    (e : Place) (answer : Added) (t : TorrentDownloader)
    → Keeps t.base (http_done e answer t).0.base
unfolding http_done
http_done-Keeps e answer t = ground (arith, fetched-Keeps e answer t)
