-- ===== src/FtdApp/Heap/Adding.antt =====
-- FtdApp.cpp, AddDownload, when the tables and the heap agree.
use filetransferdaemon.Prelude.{
  ℕ, ◌+◌, ◌≡◌, refl, ◌∙◌, ap, false, Option, none, some, List, [], Text, codes, Bool-cases,
  Option-cases, inl, inr, ◌⊎◌,
}
use filetransferdaemon.Json.{Request}
use filetransferdaemon.Platform.{Effect, Outcome, returned, thrown, thrown_pointer}
use filetransferdaemon.World.{World}
use filetransferdaemon.Object.{Object}
use filetransferdaemon.FtdApp.{FtdApp, Ending, touch, find_by_uuid, find_by_url, send_fail}
use filetransferdaemon.FtdApp.Adding.{
  add_download, add_checked, valid_add, place, get_download_dir, with_effects, place_found,
  place_named,
}
use filetransferdaemon.FtdApp.Adding.Managers.{find_downloader}
use filetransferdaemon.FtdApp.Adding.Answers.{Kept, with_effects-Kept, find_by_uuid-Kept}
use filetransferdaemon.FtdApp.Heap.Frames.{Alike, same-Alike}
use filetransferdaemon.FtdApp.Heap.Launching.{Grown, launch-Grown}

-- What happens to the heap in an AddDownload of `url` by `user`.
abbrev Added : World → Text → Text → FtdApp → FtdApp → Type 0
Added w user url a a' = Alike a a' ⊎ Grown user (w.lib.url_text url) (w.user_to_uid user) a a'

-- What changed neither the heap nor the downloads may come before.
pub after_Kept :
    {user url : Text} {uid : ℕ} {a b c : FtdApp}
    → Kept a b
    → Grown user url uid b c
    → Grown user url uid a c
after_Kept k g = record {
  fresh = g.fresh ∙ ap (λ n. n + 1) k.fresh;
  object = g.object;
  url_is = g.url_is;
  user_is = g.user_is;
  heap = λ q. rw (k.heap, k.fresh) at (g.heap q);
  lists = λ u. rw (k.same u, k.fresh) at (g.lists u);
}

Kept-Alike : {a b : FtdApp} → Kept a b → Alike a b
Kept-Alike {a} {b} k = same-Alike a b k.heap k.fresh k.same

refused-Alike : {a b : FtdApp} → Kept a b → Alike a (send_fail b)
unfolding send_fail
refused-Alike {a} {b} k = same-Alike a (send_fail b) k.heap k.fresh k.same

place_found-Added :
    (w : World) (url uuid user : Text) (policy : ℕ) (path filename : Text)
    (found : Outcome (Option Object × List Effect)) (a b : FtdApp)
    → Kept a b
    → Added w user url a (place_found w url uuid user policy path filename found b).0
unfolding place_found
place_found-Added w url uuid user policy path filename (returned (none, es)) a b k =
    inl (refused-Alike (with_effects-Kept es k))
place_found-Added w url uuid user policy path filename (returned (some o, es)) a b k = inr (
    after_Kept (with_effects-Kept es k)
      (launch-Grown w url path filename uuid user policy o (with_effects es b)))
place_found-Added w url uuid user policy path filename (thrown e) a b k = inl (Kept-Alike k)
place_found-Added w url uuid user policy path filename (thrown_pointer e) a b k = inl (Kept-Alike k)

-- Every result of a step that may go on for ever.
abbrev pub Ended : (FtdApp → Type 0) → Option (FtdApp × Ending) → Type 0
Ended P none = Unit
Ended P (some (a, e)) = P a

place_named-Added :
    (w : World) (url uuid user : Text) (policy : ℕ) (path : Text) (name : Option Text)
    (a b : FtdApp)
    → Kept a b
    → Ended (Added w user url a) (place_named w url uuid user policy path name b)
unfolding place_named
place_named-Added w url uuid user policy path none a b k = tt
place_named-Added w url uuid user policy path (some filename) a b k =
    place_found-Added w url uuid user policy path filename
      (find_downloader w b.managers (w.lib.url_text url) []) a b k

place-Added :
    (w : World) (fuel : ℕ) (url uuid user : Text) (policy : ℕ) (dir : Outcome (Text × List Effect))
    (a b : FtdApp)
    → Kept a b
    → Ended (Added w user url a) (place w fuel url uuid user policy dir b)
unfolding place
place-Added w fuel url uuid user policy (returned (path, es)) a b k =
    place_named-Added w url uuid user policy path _ a (with_effects es b) (with_effects-Kept es k)
place-Added w fuel url uuid user policy (thrown e) a b k = inl (Kept-Alike k)
place-Added w fuel url uuid user policy (thrown_pointer e) a b k = inl (Kept-Alike k)

-- Only a URL that no download has is added.
abbrev pub AddedNew : World → Text → Text → FtdApp → FtdApp → Type 0
AddedNew w user url a a' =
    Alike a a'
    ⊎ Grown user (w.lib.url_text url) (w.user_to_uid user) a a'
      × (find_by_url url (touch user a) ≡ false)

with_new :
    (w : World) (user url : Text) (a : FtdApp) (r : Option (FtdApp × Ending))
    → find_by_url url (touch user a) ≡ false
    → Ended (Added w user url a) r
    → Ended (AddedNew w user url a) r
with_new w user url a none new h = h
with_new w user url a (some (a', e)) new (inl k) = inl k
with_new w user url a (some (a', e)) new (inr g) = inr (g, new)

add_checked-Added :
    (w : World) (fuel : ℕ) (user uuid url : Text) (policy : ℕ) (a : FtdApp)
    → Ended (AddedNew w user url a) (add_checked w fuel user uuid url policy a)
unfolding add_checked find_by_uuid
add_checked-Added w fuel user uuid url policy a =
    let k = find_by_uuid-Kept uuid user a in
    elim (Bool-cases (find_by_uuid uuid user a).1) [
      | inl twice ↦ rw (twice, add_checked) (inl (refused-Alike k))
      | inr once ↦ elim (Bool-cases (find_by_url url (touch user a))) [
        | inl twice ↦ rw (once, twice, add_checked) (inl (refused-Alike k))
        | inr new ↦
            rw (once, new, add_checked)
              (with_new w user url a _ new (
                place-Added w fuel url uuid user policy (get_download_dir w user) a (touch user a)
                  k))
      ]
    ]

-- An AddDownload that ends leaves the heap and the lists as they were, but for what was there
-- before, or adds one object of its user at the end of its user's list, with a new URL.
pub add_download-Added :
    (w : World) (fuel : ℕ) (req : Request) (a : FtdApp)
    → Ended
        (AddedNew w (req.as_string (codes "user")) (req.as_string (codes "url")) a)
        (add_download w fuel req a)
unfolding add_download
add_download-Added w fuel req a = elim (Bool-cases (valid_add req)) [
  | inl valid ↦ elim (Option-cases (req.as_uint (codes "policy"))) [
    | inl e ↦ rw (valid, e) (inl (same-Alike a a refl refl (λ u. refl)))
    | inr (policy, e) ↦ rw (valid, e) (add_checked-Added w fuel _ _ _ policy a)
  ]
  | inr invalid ↦ rw invalid (
      inl (
        same-Alike a (send_fail a) (unfold send_fail in refl) (unfold send_fail in refl)
          (λ u. unfold send_fail in refl)))
]
