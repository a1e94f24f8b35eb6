-- ===== src/TorrentDownloadManager/Registry.antt =====
-- TorrentDownloader.cpp: the handles that TorrentDownloadManager knows.
use filetransferdaemon.Prelude.{
  ℕ, ◌≡◌, none, some, List, [], ◌∷◌, lookup_at, lookup_at-insert_at, arith, ◌==◌, if◌then◌else◌,
}
use filetransferdaemon.TorrentDownloadManager.{
  TorrentDownloadManager, register_handle, unregister_handle, find_downloader, erase_at,
}

lookup_at-erase_at :
    (h j : ℕ) (m : List (ℕ × ℕ))
    → lookup_at j (erase_at h m) ≡ (if h == j then none else lookup_at j m)
unfolding lookup_at erase_at
lookup_at-erase_at h j [] = ground arith
lookup_at-erase_at h j ((k, v) ∷ m) = ground (arith, lookup_at-erase_at h j m)

-- A registered handle is found with its torrent and an unregistered one is not found, and what is
-- found for the other handles stays.
registry_lem :
    (h t j : ℕ) (m : TorrentDownloadManager)
    → (find_downloader j (register_handle h t m) ≡ (if h == j then some t else find_downloader j m))
      × (find_downloader j (unregister_handle h m) ≡ (if h == j then none else find_downloader j m))
unfolding find_downloader register_handle unregister_handle
registry_lem h t j m = (lookup_at-insert_at h j t m.handle_map, lookup_at-erase_at h j m.handle_map)
