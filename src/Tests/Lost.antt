-- ===== src/Tests/Lost.antt =====
-- A torrent that is stopped, an upload to another device, and the environment of the CGI program.
use filetransferdaemon.Prelude.{
  ◌≡◌, refl, true, false, none, List, [], ◌∷◌, map, codes, Text, lookup,
}
use filetransferdaemon.Downloader.{in_progress, downloaded, ok}
use filetransferdaemon.CurlDownloader.Run.Traces.{unlinked}
use filetransferdaemon.SocketFdDownloader.{SocketFdDownloader}
use filetransferdaemon.SocketFdDownloader.Files.{FileSystem, fix_files, copy_all}
use filetransferdaemon.SocketFdDownloader.Files.Copies.{
  copied, copies, sources, failed_copy_is_lost,
}
use filetransferdaemon.TorrentDownloader.{TorrentDownloader}
use filetransferdaemon.TorrentDownloader.Files.{do_write_resume_data}
use filetransferdaemon.TorrentDownloader.Resume.{System, Steps, initial, asleep, resume_lost}
use filetransferdaemon.Upload.Environ.{parse_environ, row_of, last_value, lookup-parse_environ}
use filetransferdaemon.Tests.{lib, download, torrent_download, upload_download, file_system}
use filetransferdaemon.Tests.Sessions.{place}

abbrev stopped : TorrentDownloader
stopped = record (torrent_download (download in_progress ok)) { is_valid = true }

resume_lost_example :
    (s : System) × Steps place (initial stopped) s
    × (s.torrent ≡ (do_write_resume_data place stopped).0)
    × ((u : System) → Steps place s u → u.caller ≡ asleep)
resume_lost_example = resume_lost place stopped refl

-- A destination on another device that is full.
abbrev full : FileSystem
full = record file_system {
  writable = λ p u. true;
  same_device = λ a b. false;
  can_copy = λ a b. false;
  can_unlink = λ f. true;
}

abbrev two_files : SocketFdDownloader
two_files =
    let u = upload_download (download downloaded ok) in
    record u {
      cgi = record u.cgi {
        file_names = (codes "/t/1", codes "a") ∷ (codes "/t/2", codes "b") ∷ [];
      };
    }

failed_copy_is_lost_example :
    (unlinked (fix_files lib full two_files).0 ≡ sources two_files.cgi.file_names)
    × (copied (fix_files lib full two_files).0
        ≡ copies full two_files.destination_path two_files.cgi.file_names)
unfolding fix_files copy_all
failed_copy_is_lost_example = failed_copy_is_lost lib full two_files refl refl refl refl

abbrev rows : List (Text × Text)
rows =
    (codes "HOME", codes "/root")
    ∷ (codes "QUERY_STRING", codes "a=b")
    ∷ (codes "HOME", codes "/home")
    ∷ []

lookup-parse_environ_example :
    lookup (codes "HOME") (parse_environ (map row_of rows) []) ≡ last_value (codes "HOME") rows none
lookup-parse_environ_example = lookup-parse_environ (codes "HOME") rows (refl, (refl, (refl, tt)))
