-- ===== src/FtdApp/Heap/Growing.antt =====
-- FtdApp.cpp, RegisterDownload of a new object, when the tables and the heap agree.
use mathlib.Core.Option.{some-injective}
use filetransferdaemon.Prelude.{
  ℕ, ◌≡◌, refl, sym, ◌∙◌, ap, Bool, true, false, Option, some, Text, text_eq, text_eq_iff,
  text_eq_refl, arith, codes, ◌==◌, ==_iff, if◌then◌else◌, Bool-cases, inl, inr, ◌⊎◌,
}
use filetransferdaemon.Json.{Request}
use filetransferdaemon.World.{World}
use filetransferdaemon.Object.{Object, base}
use filetransferdaemon.FtdApp.{
  FtdApp, returns, send_fail, find_by_uuid, downloads, touch, has_url, find_by_url,
}
use filetransferdaemon.FtdApp.Adding.{add_download, add_checked, valid_add}
use filetransferdaemon.FtdApp.Adding.Answers.{
  downloads-touch, Refused, find_by_uuid-Kept, send_fail-Refused,
}
use filetransferdaemon.FtdApp.Heap.{IsValid, is_listed}
use filetransferdaemon.FtdApp.Heap.Lists.{
  is_in-append, is_nodup-append, find_first-none, any_url-false,
}
use filetransferdaemon.FtdApp.Heap.Frames.{touch-heap}
use filetransferdaemon.FtdApp.Heap.Launching.{Grown}

-- FindByURL that finds nothing: no listed download has the URL.
pub find_by_url-new :
    (user url u : Text) (a : FtdApp) (p : ℕ) (o : Object)
    → find_by_url url (touch user a) ≡ false
    → is_listed a u p ≡ true
    → a.heap p ≡ some o
    → text_eq (base o).url url ≡ false
unfolding find_by_url
find_by_url-new user url u a p o new i e =
    find_first-none a.heap (has_url url) (downloads u a.transfers) p o
      (rw (downloads-touch user a u, (touch-heap user a)) at
        (any_url-false (touch user a).heap url (touch user a).transfers u new))
      i e

object_cases :
    (b : Bool) (x o : Object) (h : Option Object)
    → (if b then some x else h) ≡ some o
    → ((b ≡ true) × (x ≡ o)) ⊎ ((b ≡ false) × (h ≡ some o))
object_cases true x o h e = inl (refl, some-injective _ _ e)
object_cases false x o h e = inr (refl, e)

module _ (name : ℕ → Text) (user url : Text) (uid : ℕ) (a a' : FtdApp)
    (g : Grown user url uid a a') where
  pub listed_now :
      (u : Text) (q : ℕ)
      → is_listed a' u q ≡ (
          if text_eq user u
          then (if a.fresh == q then true else is_listed a u q)
          else is_listed a u q)
  listed_now u q = rw (g.lists u) (ground (arith, is_in-append q a.fresh (downloads u a.transfers)))

  pub listed_cases :
      (u : Text) (q : ℕ)
      → is_listed a' u q ≡ true
      → ((q ≡ a.fresh) × (user ≡ u)) ⊎ (is_listed a u q ≡ true)
  listed_cases u q i = ground (arith, listed_now u q, text_eq_iff user u)

  there_cases :
      (q : ℕ) (o : Object)
      → a'.heap q ≡ some o
      → ((q ≡ a.fresh) × (g.object ≡ o)) ⊎ ((q == a.fresh ≡ false) × (a.heap q ≡ some o))
  there_cases q o e =
      elim (object_cases (q == a.fresh) g.object o (a.heap q) (sym (g.heap q) ∙ e)) [
        | inl (b, x) ↦ inl ((==_iff q a.fresh).0 b, x)
        | inr old ↦ inr old
      ]

  -- A download that was listed before has its object from before.
  pub old_object :
      IsValid name a
      → (u : Text) (q : ℕ) (o : Object) → is_listed a u q ≡ true
      → a'.heap q ≡ some o
      → a.heap q ≡ some o
  old_object v u q o i e = elim (there_cases q o e) [
    | inl (new, _) ↦ absurd (omega (arith, v.below u q i, new))
    | inr (_, h) ↦ h
  ]

  pub new_object : (o : Object) → a'.heap a.fresh ≡ some o → g.object ≡ o
  new_object o e = some-injective g.object o (sym (g.heap a.fresh ∙ ground arith) ∙ e)

  pub still_there :
      IsValid name a
      → (u : Text) (q : ℕ) (o : Object) → is_listed a u q ≡ true
      → a.heap q ≡ some o
      → a'.heap q ≡ some o
  still_there v u q o i e = ground (arith, g.heap q, v.below u q i)

  module _ (known : name uid ≡ user) (new : find_by_url url (touch user a) ≡ false)
      (v : IsValid name a) where
    one_url_new :
        (x : Text) (q : ℕ) (o o' : Object)
        → is_listed a x q ≡ true
        → a'.heap q ≡ some o
        → g.object ≡ o'
        → (base o).url ≡ (base o').url
        → ⊥
    one_url_new x q o o' i e is same =
        let differs = find_by_url-new user url x a q o new i (old_object v x q o i e) in
        let equal =
          (text_eq_iff (base o).url url).1 (same ∙ ap (λ r. (base r).url) (sym is) ∙ g.url_is) in
        absurd (cc (differs, equal))

    owned : (o : Object) → g.object ≡ o → user ≡ name (base o).user
    owned o is = sym known ∙ ap name (sym g.user_is) ∙ ap (λ x. name (base x).user) is

    stays :
        (q : ℕ) (o : Object)
        → is_listed a (name (base o).user) q ≡ true
        → is_listed a' (name (base o).user) q ≡ true
    stays q o i = ground (arith, listed_now (name (base o).user) q)

    unlisted : (u : Text) → is_listed a u a.fresh ≡ false
    unlisted u = elim (Bool-cases (is_listed a u a.fresh)) [
      | inl i ↦ absurd (omega (arith, v.below u a.fresh i))
      | inr n ↦ n
    ]

    pub Grown-IsValid : IsValid name a'
    Grown-IsValid = record {
      present = λ u q i. elim (listed_cases u q i) [
        | inl (here, _) ↦ (g.object, rw here (g.heap a.fresh ∙ ground arith))
        | inr old ↦ let (o, e) = v.present u q old in (o, still_there v u q o old e)
      ];
      below = λ u q i. elim (listed_cases u q i) [
        | inl (here, _) ↦ rw g.fresh (omega (arith, here))
        | inr old ↦ rw g.fresh (omega (arith, v.below u q old))
      ];
      at_home = λ u q o i e. elim (listed_cases u q i) [
        | inl (here, own) ↦
            ap (λ x. name (base x).user) (sym (new_object o (rw here at e)))
            ∙ ap name g.user_is
            ∙ known
            ∙ own
        | inr old ↦ v.at_home u q o old (old_object v u q o old e)
      ];
      listed = λ q o e. elim (there_cases q o e) [
        | inl (here, is) ↦
            rw (listed_now (name (base o).user) q, here, sym (owned o is), text_eq_refl user)
              (ground arith)
        | inr (other, old) ↦ stays q o (v.listed q o old)
      ];
      nodup = λ u. elim (Bool-cases (text_eq user u)) [
        | inl own ↦
            rw (g.lists u, own)
              (is_nodup-append a.fresh (downloads u a.transfers) (unlisted u) (v.nodup u))
        | inr other ↦ rw (g.lists u, other) (v.nodup u)
      ];
      one_url = λ x y q r o o' i j e f same. elim (listed_cases x q i) [
        | inl (here, _) ↦ elim (listed_cases y r j) [
          | inl (there, _) ↦ here ∙ sym there
          | inr old ↦ absurd (one_url_new y r o' o old f (new_object o (rw here at e)) (sym same))
        ]
        | inr was ↦ elim (listed_cases y r j) [
          | inl (there, _) ↦
              absurd (one_url_new x q o o' was e (new_object o' (rw there at f)) same)
          | inr old ↦
              v.one_url x y q r o o' was old (old_object v x q o was e) (old_object v y r o' old f)
                same
        ]
      ];
    }

listed_url :
    (name : ℕ → Text) (a : FtdApp) (p : ℕ) (o : Object) (user url : Text)
    → IsValid name a
    → a.heap p ≡ some o
    → (base o).url ≡ url
    → find_by_url url (touch user a) ≡ true
listed_url name a p o user url v e same = elim (Bool-cases (find_by_url url (touch user a))) [
  | inl found ↦ found
  | inr new ↦ absurd (
      cc (
        find_by_url-new user url (name (base o).user) a p o new (v.listed p o e) e,
        (text_eq_iff (base o).url url).1 same,
      ))
]

-- While any user has a download with the URL of an AddDownload whose policy can be read as a number
-- that is not negative, and the tables and the heap agree, the answer is FAIL and nobody's
-- downloads change.
pub duplicate_fails :
    (w : World) (fuel : ℕ) (req : Request) (name : ℕ → Text) (a : FtdApp) (p n : ℕ) (o : Object)
    → IsValid name a
    → a.heap p ≡ some o
    → (base o).url ≡ req.as_string (codes "url")
    → req.as_uint (codes "policy") ≡ some n
    → (a' : FtdApp) × (add_download w fuel req a ≡ some (a', returns)) × Refused a a'
unfolding add_download add_checked find_by_uuid
duplicate_fails w fuel req name a p n o v e url policy =
    let user = req.as_string (codes "user") in
    let uuid = req.as_string (codes "uuid") in
    let k = find_by_uuid-Kept uuid user a in
    elim (Bool-cases (valid_add req)) [
      | inl valid ↦ elim (Bool-cases (find_by_uuid uuid user a).1) [
        | inl twice ↦ (
          send_fail (find_by_uuid uuid user a).0,
          rw (valid, policy, twice, add_checked) refl,
          send_fail-Refused k,
        )
        | inr once ↦ (
          send_fail (find_by_uuid uuid user a).0,
          rw
              (
                valid,
                policy,
                once,
                listed_url name a p o user (req.as_string (codes "url")) v e url,
                add_checked,
              )
              refl,
          send_fail-Refused k,
        )
      ]
      | inr invalid ↦ (
        send_fail a,
        rw invalid refl,
        send_fail-Refused (record { sent = refl; heap = refl; fresh = refl; same = λ u. refl }),
      )
    ]
