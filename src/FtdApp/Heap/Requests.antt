-- ===== src/FtdApp/Heap/Requests.antt =====
-- FtdApp.cpp: canceling and listing, when the tables and the heap agree.
use filetransferdaemon.Prelude.{
  ℕ, ◌≡◌, refl, ◌∙◌, ap, ◌&&◌, Option, none, some, List, [], ◌∷◌, Text, Table, lookup, is_empty,
  text_eq, arith, codes, Bool-cases, Option-cases, inl, inr,
}
use filetransferdaemon.Json.{Json, Request}
use filetransferdaemon.Downloader.{Downloader, register_completion_callback, register_locked}
use filetransferdaemon.Downloader
use filetransferdaemon.SocketFdDownloader
use filetransferdaemon.TorrentDownloader
use filetransferdaemon.World.{World}
use filetransferdaemon.Object.{
  Object, base, curl, upload, torrent, with_base, cancel_download, get_info,
}
use filetransferdaemon.FtdApp.{
  FtdApp, downloads, touch, find_first, has_uuid, send_ok, send_fail, send_json_value,
}
use filetransferdaemon.FtdApp.Adding.{valid_text}
use filetransferdaemon.FtdApp.Canceling.{
  cancel_object, cancel_found, cancel_named, cancel_request, add_work, locate, remove_address,
}
use filetransferdaemon.FtdApp.Listing.{
  send_download, send_at, send_list, list_user_downloads, list_all, get_download_by_uuid,
  list_request,
}
use filetransferdaemon.FtdApp.Heap.{IsValid}
use filetransferdaemon.FtdApp.Heap.Frames.{
  Alike, Alike-trans, Alike-IsValid, same-Alike, touch-Alike, store-Alike, touch-heap,
}
use filetransferdaemon.FtdApp.Heap.Fate.{AtMost, none_less, touched_AtMost, deferred_remove-AtMost}

cancel_download-same :
    (w : World) (o : Object)
    → ((base (cancel_download w o).0).url ≡ (base o).url)
      × ((base (cancel_download w o).0).user ≡ (base o).user)
unfolding cancel_download Downloader.cancel_download SocketFdDownloader.cancel_download
    TorrentDownloader.cancel_download TorrentDownloader.change_permissions
cancel_download-same w (curl c) = (refl, refl)
cancel_download-same w (upload c) = ground arith
cancel_download-same w (torrent t) = ground arith

get_info-same :
    (w : World) (o : Object)
    → ((base (get_info w o).0).url ≡ (base o).url) × ((base (get_info w o).0).user ≡ (base o).user)
unfolding get_info TorrentDownloader.get_info
get_info-same w (curl c) = (refl, refl)
get_info-same w (upload c) = (refl, refl)
get_info-same w (torrent t) = ground arith

registered-same :
    (cb p : ℕ) (o : Object)
    → let o' = with_base o (register_completion_callback (some cb) p (base o)).0 in
      ((base o').url ≡ (base o).url) × ((base o').user ≡ (base o).user)
unfolding register_completion_callback register_locked
registered-same cb p (curl c) = ground arith
registered-same cb p (upload c) = ground arith
registered-same cb p (torrent t) = ground arith

-- What is sent changes nothing here.
pub Alike-refl : (a : FtdApp) → Alike a a
Alike-refl a = same-Alike a a refl refl (λ u. refl)

pub sent-Alike : (val : Json) (a : FtdApp) → Alike a (send_json_value val a)
unfolding send_json_value
sent-Alike val a = same-Alike a (send_json_value val a) refl refl (λ u. refl)

pub send_ok-Alike : (a : FtdApp) → Alike a (send_ok a)
unfolding send_ok
send_ok-Alike a = sent-Alike _ a

pub send_fail-Alike : (a : FtdApp) → Alike a (send_fail a)
unfolding send_fail
send_fail-Alike a = sent-Alike _ a

cancel_object-Alike :
    (w : World) (p : ℕ) (o o' : Object) (a : FtdApp)
    → a.heap p ≡ some o
    → (base o').url ≡ (base o).url
    → (base o').user ≡ (base o).user
    → Alike a (cancel_object w p o' a)
unfolding cancel_object add_work
cancel_object-Alike w p o o' a e url user =
    let (u, s) = cancel_download-same w o' in
    let k = store-Alike a p o (cancel_download w o').0 e (u ∙ url) (s ∙ user) in
    record { fresh = k.fresh; same = k.same; forth = k.forth; back = k.back }

cancel_found-AtMost :
    (w : World) (p : ℕ) (o : Object) (a : FtdApp)
    → a.heap p ≡ some o
    → IsValid w.uid_to_user a
    → AtMost a (cancel_found w p o a).0
unfolding cancel_found
cancel_found-AtMost w p o a e v =
    let d = (register_completion_callback (some remove_address) p (base o)).0 in
    let (url, user) = registered-same remove_address p o in
    elim (Bool-cases (register_completion_callback (some remove_address) p (base o)).1) [
      | inl good ↦
          rw (good, cancel_found)
            (none_less (cancel_object-Alike w p o (with_base o d) a e url user))
      | inr bad ↦ rw (bad, cancel_found) (deferred_remove-AtMost w p a v)
    ]

cancel_named-AtMost :
    (w : World) (user uuid url : Text) (a : FtdApp)
    → IsValid w.uid_to_user a
    → AtMost a (cancel_named w user uuid url a).0
unfolding cancel_named
cancel_named-AtMost w user uuid url a v =
    let v' = Alike-IsValid w.uid_to_user a (touch user a) (touch-Alike user a) v in
    elim (Option-cases (locate uuid url a.heap (downloads user (touch user a).transfers))) [
      | inl h ↦ rw (h, cancel_named) (none_less (touch-Alike user a))
      | inr (p, h) ↦ elim (Option-cases (a.heap p)) [
        | inl e ↦ rw (h, e, cancel_named) (none_less (touch-Alike user a))
        | inr (o, e) ↦
            rw (h, e, cancel_named)
              (touched_AtMost user a _
                (cancel_found-AtMost w p o (touch user a) (rw (touch-heap user a) e) v'))
      ]
    ]

pub cancel_request-AtMost :
    (w : World) (req : Request) (a : FtdApp)
    → IsValid w.uid_to_user a
    → AtMost a (cancel_request w req a).0
unfolding cancel_request
cancel_request-AtMost w req a v =
    elim (Bool-cases (
      valid_text req (codes "user")
      && (valid_text req (codes "url") && valid_text req (codes "uuid")))) [
        | inl good ↦ rw (good, cancel_request) (cancel_named-AtMost w _ _ _ a v)
        | inr bad ↦ rw (bad, cancel_request) (none_less (Alike-refl a))
      ]

module _ (w : World) where
  send_at-Alike :
      (user : Text) (p : ℕ) (x : Option Object) (a : FtdApp)
      → a.heap p ≡ x
      → Alike a (send_at w user p x a)
  unfolding send_at send_download
  send_at-Alike user p none a e = Alike-refl a
  send_at-Alike user p (some o) a e =
      let (u, s) = get_info-same w o in
      Alike-trans (store-Alike a p o (get_info w o).0 e u s) (sent-Alike _ _)

  send_list-Alike : (user : Text) (ps : List ℕ) (a : FtdApp) → Alike a (send_list w user ps a)
  unfolding send_list
  send_list-Alike user [] a = Alike-refl a
  send_list-Alike user (p ∷ ps) a =
      Alike-trans (send_at-Alike user p (a.heap p) a refl) (send_list-Alike user ps _)

  list_user-Alike : (user : Text) (a : FtdApp) → Alike a (list_user_downloads w user a)
  unfolding list_user_downloads
  list_user-Alike user a = elim (Option-cases (lookup user a.transfers)) [
    | inl e ↦ rw (e, list_user_downloads) (Alike-refl a)
    | inr (ps, e) ↦ rw (e, list_user_downloads) (send_list-Alike user ps a)
  ]

  list_all-Alike : (m : Table (List ℕ)) (a : FtdApp) → Alike a (list_all w m a)
  unfolding list_all
  list_all-Alike [] a = Alike-refl a
  list_all-Alike ((user, ps) ∷ m) a = Alike-trans (list_user-Alike user a) (list_all-Alike m _)

  by_uuid-Alike : (user uuid : Text) (a : FtdApp) → Alike a (get_download_by_uuid w user uuid a)
  unfolding get_download_by_uuid
  by_uuid-Alike user uuid a =
      elim (Option-cases
        (find_first a.heap (has_uuid uuid) (downloads user (touch user a).transfers))) [
          | inl e ↦
              rw (e, get_download_by_uuid)
                (Alike-trans (touch-Alike user a) (send_fail-Alike (touch user a)))
          | inr (p, e) ↦
              rw (e, get_download_by_uuid)
                (Alike-trans (touch-Alike user a) (
                  Alike-trans
                    (send_at-Alike user p (a.heap p) (touch user a)
                      (ap (λ h. h p) (touch-heap user a)))
                    (send_ok-Alike _)))
        ]

  pub list_request-Alike : (req : Request) (a : FtdApp) → Alike a (list_request w req a)
  unfolding list_request
  list_request-Alike req a =
      elim (Bool-cases (valid_text req (codes "user") && valid_text req (codes "uuid"))) [
        | inr bad ↦ rw (bad, list_request) (send_fail-Alike a)
        | inl good ↦ elim (Bool-cases (is_empty (req.as_string (codes "uuid")))) [
          | inr some_uuid ↦ rw (good, some_uuid, list_request) (by_uuid-Alike _ _ a)
          | inl no_uuid ↦ elim (Bool-cases (text_eq (req.as_string (codes "user")) (codes "*"))) [
            | inl all ↦
                rw (good, no_uuid, all, list_request)
                  (Alike-trans (list_all-Alike a.transfers a) (send_ok-Alike _))
            | inr one ↦
                rw (good, no_uuid, one, list_request)
                  (Alike-trans (list_user-Alike _ a) (send_ok-Alike _))
          ]
        ]
      ]
