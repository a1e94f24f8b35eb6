-- ===== src/FtdClient/Exits.antt =====
-- ftdclient.cpp against FtdApp.cpp: what the client makes of the listing that the daemon sends.
use mathlib.Core.List.{append_assoc, append-nil}
use filetransferdaemon.Prelude.{
  ℕ, ◌≡◌, refl, sym, ap, ◌∙◌, true, false, some, List, [], ◌∷◌, ◌++◌, Text, text_eq, All, lookup,
}
use filetransferdaemon.Json.{Json}
use filetransferdaemon.Commands.{cmd_code, cmd_ok}
use filetransferdaemon.World.{World}
use filetransferdaemon.Object.{Object}
use filetransferdaemon.FtdApp.{FtdApp, reply, send_ok, send_json_value}
use filetransferdaemon.FtdApp.Listing.{
  describe, list_user_downloads, send_list, send_at, send_download,
}
use filetransferdaemon.FtdApp.Listing.Records.{
  facts, TellsFacts, TellsEach, describe-TellsFacts, send_at-SameFacts, TellsEach-SameFacts,
}
use filetransferdaemon.FtdApp.Listing.Answers.{Present, send_at-Present}
use filetransferdaemon.FtdClient.{reply_cmd, is_code, reads_on, read_list}

reads_on-describe :
    (user : Text) (o : Object) (info : Json) → reads_on (describe user o info) ≡ true
unfolding reads_on reply_cmd describe is_code cmd_code text_eq
reads_on-describe user o info = refl

reads_on-ok : reads_on (reply cmd_ok) ≡ false
unfolding reads_on reply_cmd is_code cmd_code text_eq
reads_on-ok = refl

-- The client shows the records and stops at the first other reply.
read_list-append :
    (xs : List Json)
    → All (λ x. reads_on x ≡ true) xs
    → read_list (xs ++ reply cmd_ok ∷ []) ≡ (xs, false)
unfolding read_list
read_list-append [] h = rw reads_on-ok refl
read_list-append (x ∷ xs) (hx, hs) = rw (hx, read_list-append xs hs) refl

-- Records that stand behind what was sent before, one for each download.
abbrev Records : Text → FtdApp → FtdApp → List ℕ → Type 0
Records user a a' ps =
    (xs : List Json) × (a'.sent ≡ a.sent ++ xs)
    × All (λ x. reads_on x ≡ true) xs
    × TellsEach user a.heap ps xs

module _ (w : World) (user : Text) where
  send_at-record :
      (p : ℕ) (o : Object) (a : FtdApp)
      → (rec : Json) × ((send_at w user p (some o) a).sent ≡ a.sent ++ rec ∷ [])
        × (reads_on rec ≡ true)
        × TellsFacts user (facts o) rec
  unfolding send_at send_download send_json_value
  send_at-record p o a = (_, refl, reads_on-describe user o _, describe-TellsFacts user o _)

  send_list-Records :
      (ps : List ℕ) (a : FtdApp) → Present a.heap ps → Records user a (send_list w user ps a) ps
  unfolding send_list
  send_list-Records [] a h = ([], sym (append-nil a.sent), tt, tt)
  send_list-Records (p ∷ ps) a ((o, e), h) =
      let (rec, sent, good, told) = send_at-record p o a in
      let a' = send_at w user p (some o) a in
      let (xs, later, all, same) =
        send_list-Records ps a' (send_at-Present w user p (some o) a ps h) in
      rw (e, send_list)
        (
          rec ∷ xs,
          later ∙ ap (λ s. s ++ xs) sent ∙ append_assoc a.sent (rec ∷ []) xs,
          (good, all),
          (
            (o, e, told),
            TellsEach-SameFacts user a.heap a'.heap ps xs (send_at-SameFacts w user p o a e) same,
          ),
        )

-- A client that lists the downloads of a user, each of which is on the heap, reads one record for
-- each of them, in their order, with its URL, UUID, name, size, received bytes and policy and with
-- the user; it shows all of them, and stops.
pub list_exit :
    (w : World) (user : Text) (ps : List ℕ) (a : FtdApp)
    → lookup user a.transfers ≡ some ps
    → Present a.heap ps
    → (xs : List Json) × ((send_ok (list_user_downloads w user a)).sent
        ≡ a.sent ++ (xs ++ reply cmd_ok ∷ []))
      × (read_list (xs ++ reply cmd_ok ∷ []) ≡ (xs, false))
      × TellsEach user a.heap ps xs
unfolding list_user_downloads send_ok send_json_value
list_exit w user ps a e h =
    let (xs, sent, good, same) = send_list-Records w user ps a h in
    (
      xs,
      rw (e, list_user_downloads, sent) (append_assoc a.sent xs (reply cmd_ok ∷ [])),
      read_list-append xs good,
      same,
    )
