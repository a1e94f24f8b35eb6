-- ===== src/FtdApp/Canceling/Silence.antt =====
-- FtdApp.cpp, CancelDownload: the client that asks for it hears nothing.
use filetransferdaemon.Prelude.{
  ℕ, ◌≡◌, refl, ◌∙◌, Bool-cases, Option-cases, inl, inr, ◌&&◌, Text, codes, arith,
}
use filetransferdaemon.Json.{Request}
use filetransferdaemon.Downloader.{register_locked}
use filetransferdaemon.World.{World}
use filetransferdaemon.Object.{Object, base}
use filetransferdaemon.FtdApp.{FtdApp, touch, find_first, has_url, downloads}
use filetransferdaemon.FtdApp.Adding.{valid_text}
use filetransferdaemon.FtdApp.Canceling.{
  cancel_request, cancel_named, cancel_found, cancel_object, deferred_remove, remove_object,
  delete_object, may_delete, locate, add_work, remove_address,
}

touch-sent : (user : Text) (a : FtdApp) → (touch user a).sent ≡ a.sent
unfolding touch
touch-sent user a = ground arith

remove_object-sent :
    (w : World) (p : ℕ) (o : Object) (a : FtdApp) → (remove_object w p o a).0.sent ≡ a.sent
unfolding remove_object delete_object
remove_object-sent w p o a =
    elim (Option-cases (
      find_first a.heap (has_url (base o).url) (
        downloads (w.uid_to_user (base o).user)
          (touch (w.uid_to_user (base o).user) a).transfers))) [
            | inl e ↦ rw (e, remove_object) (touch-sent _ a)
            | inr (q, e) ↦ elim (Bool-cases (may_delete w o)) [
              | inl may ↦ rw (e, may, remove_object) (touch-sent (w.uid_to_user (base o).user) a)
              | inr not_yet ↦
                  rw (e, not_yet, remove_object) (touch-sent (w.uid_to_user (base o).user) a)
            ]
          ]

deferred_remove-sent : (w : World) (p : ℕ) (a : FtdApp) → (deferred_remove w p a).0.sent ≡ a.sent
unfolding deferred_remove
deferred_remove-sent w p a = elim (Option-cases (a.heap p)) [
  | inl e ↦ rw (e, deferred_remove) refl
  | inr (o, e) ↦ rw (e, deferred_remove) (remove_object-sent w p o a)
]

cancel_found-sent :
    (w : World) (p : ℕ) (o : Object) (a : FtdApp) → (cancel_found w p o a).0.sent ≡ a.sent
unfolding cancel_found cancel_object add_work
cancel_found-sent w p o a = elim (Bool-cases (register_locked remove_address p (base o)).1) [
  | inl registered ↦ rw registered refl
  | inr refused ↦ rw refused (deferred_remove-sent w p a)
]

cancel_named-sent :
    (w : World) (user uuid url : Text) (a : FtdApp)
    → (cancel_named w user uuid url a).0.sent ≡ a.sent
unfolding cancel_named
cancel_named-sent w user uuid url a =
    elim (Option-cases (locate uuid url a.heap (downloads user (touch user a).transfers))) [
      | inl e ↦ rw (e, cancel_named) (touch-sent user a)
      | inr (p, e) ↦ elim (Option-cases (a.heap p)) [
        | inl f ↦ rw (e, f, cancel_named) (touch-sent user a)
        | inr (o, f) ↦
            rw (e, f, cancel_named) (cancel_found-sent w p o (touch user a) ∙ touch-sent user a)
      ]
    ]

-- Whatever CancelDownload does, it sends no reply.
pub cancel_request-sent :
    (w : World) (req : Request) (a : FtdApp) → (cancel_request w req a).0.sent ≡ a.sent
unfolding cancel_request
cancel_request-sent w req a =
    elim (Bool-cases (
      valid_text req (codes "user")
      && (valid_text req (codes "url") && valid_text req (codes "uuid")))) [
        | inl valid ↦ rw valid (cancel_named-sent w _ _ _ a)
        | inr invalid ↦ rw invalid refl
      ]
