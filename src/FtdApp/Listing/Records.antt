-- ===== src/FtdApp/Listing/Records.antt =====
-- FtdApp.cpp, SendDownload: what the record of a download says, read back field by field.
use mathlib.Core.Path.{subst}
use mathlib.Core.Option.{some-injective}
use filetransferdaemon.Prelude.{
  ℕ, ◌≡◌, refl, sym, ◌∙◌, ap, Option, none, some, List, [], ◌∷◌, Text, codes, text_eq, ◌==◌,
  if◌then◌else◌, Bool-cases, inl, inr, ==_iff,
}
use filetransferdaemon.Json.{Json, Members, int, ulong, str, object, end, member}
use filetransferdaemon.World.{World}
use filetransferdaemon.TorrentDownloader
use filetransferdaemon.TorrentDownloader.{TorrentState}
use filetransferdaemon.TorrentDownloader.Info.{state_of}
use filetransferdaemon.Object.{Object, curl, upload, torrent, base, sizes, get_info}
use filetransferdaemon.FtdApp.{FtdApp, send_json_value}
use filetransferdaemon.FtdApp.Throttling.{to_signed}
use filetransferdaemon.FtdApp.Listing.{describe, send_download, send_at}

-- The first member with a name.
abbrev pub field : Text → Members → Option Json
field k end = none
field k (member name v rest) = let later = field k rest in if text_eq name k then some v else later

abbrev pub read : Text → Json → Option Json
read k (object ms) = field k ms
read k _ = none

-- What a listing leaves alone: the URL, the UUID, the name, the two sizes and the policy.
abbrev pub facts : Object → Text × Text × Text × ℕ × ℕ × ℕ
facts o = (
  (base o).url,
  (base o).uuid,
  (base o).destination_name,
  (sizes o).0,
  (sizes o).1,
  (base o).policy,
)

abbrev pub TellsFacts : Text → Text × Text × Text × ℕ × ℕ × ℕ → Json → Type 0
TellsFacts user (url, uuid, name, size, received, policy) rec =
    (read (codes "url") rec ≡ some (str url))
    × (read (codes "user") rec ≡ some (str user))
    × (read (codes "uuid") rec ≡ some (str uuid))
    × (read (codes "name") rec ≡ some (str name))
    × (read (codes "size") rec ≡ some (ulong size))
    × (read (codes "downloaded") rec ≡ some (ulong received))
    × (read (codes "policy") rec ≡ some (int (to_signed policy)))

-- A record for each download of a list, in its order, with the data of that download.
abbrev pub TellsEach : Text → (ℕ → Option Object) → List ℕ → List Json → Type 0
TellsEach user heap [] [] = Unit
TellsEach user heap (p ∷ ps) (x ∷ xs) =
    ((o : Object) × (heap p ≡ some o) × TellsFacts user (facts o) x) × TellsEach user heap ps xs
TellsEach user heap [] (x ∷ xs) = ⊥
TellsEach user heap (p ∷ ps) [] = ⊥

pub describe-TellsFacts :
    (user : Text) (o : Object) (info : Json) → TellsFacts user (facts o) (describe user o info)
unfolding describe text_eq
describe-TellsFacts user o info = (refl, refl, refl, refl, refl, refl, refl)

torrent-facts :
    (ts : Option TorrentState) (t : TorrentDownloader.TorrentDownloader)
    → facts (torrent (TorrentDownloader.get_info ts t)) ≡ facts (torrent t)
unfolding TorrentDownloader.get_info sizes
torrent-facts none t = refl
torrent-facts (some ts) t = refl

get_info-facts : (w : World) (o : Object) → facts (get_info w o).0 ≡ facts o
unfolding get_info
get_info-facts w (curl c) = refl
get_info-facts w (upload c) = refl
get_info-facts w (torrent t) = torrent-facts (state_of (w.torrent_status t.handle)) t

-- Whatever is on the second heap is on the first one, with the same facts.
abbrev pub SameFacts : (heap heap' : ℕ → Option Object) → Type 0
SameFacts heap heap' =
    (q : ℕ) (o' : Object)
    → heap' q ≡ some o'
    → (o : Object) × (heap q ≡ some o) × (facts o' ≡ facts o)

pub send_at-SameFacts :
    (w : World) (user : Text) (p : ℕ) (o : Object) (a : FtdApp)
    → a.heap p ≡ some o
    → SameFacts a.heap (send_at w user p (some o) a).heap
unfolding send_at send_download send_json_value
send_at-SameFacts w user p o a e q o' h = elim (Bool-cases (q == p)) [
  | inl here ↦ (
    o,
    ap a.heap ((==_iff q p).0 here) ∙ e,
    ap facts (sym (some-injective _ _ (rw here at h))) ∙ get_info-facts w o,
  )
  | inr there ↦ (o', rw there at h, refl)
]

pub TellsEach-SameFacts :
    (user : Text) (heap heap' : ℕ → Option Object) (ps : List ℕ) (xs : List Json)
    → SameFacts heap heap'
    → TellsEach user heap' ps xs
    → TellsEach user heap ps xs
TellsEach-SameFacts user heap heap' [] [] k h = h
TellsEach-SameFacts user heap heap' (p ∷ ps) (x ∷ xs) k ((o', e, told), hs) =
    let (o, at, same) = k p o' e in
    (
      (o, at, subst (λ f. TellsFacts user f x) same told),
      TellsEach-SameFacts user heap heap' ps xs k hs,
    )
TellsEach-SameFacts user heap heap' [] (x ∷ xs) k h = h
TellsEach-SameFacts user heap heap' (p ∷ ps) [] k h = h
