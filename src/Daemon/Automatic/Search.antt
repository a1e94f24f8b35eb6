-- ===== src/Daemon/Automatic/Search.antt =====
-- CurlDownloader.cpp and FtdApp.cpp together: what a thread changes besides its own download, and
-- how CancelDownload finds the download that it was called for.
use mathlib.Core.Option.{some-injective}
use filetransferdaemon.Prelude.{
  ℕ, ◌≡◌, refl, sym, ◌∙◌, ap, true, false, Option, none, some, List, [], ◌∷◌, ◌++◌, Text, arith,
  codes, is_empty, lookup, insert, text_eq, text_lt, text_eq_iff, ◌==◌, ==_iff, if◌then◌else◌,
  Bool-cases, inl, inr,
}
use filetransferdaemon.Json.{text_object}
use filetransferdaemon.Downloader.{app_dl_done}
use filetransferdaemon.Downloader.Owner.{Keeps}
use filetransferdaemon.Platform.{Effect, emit}
use filetransferdaemon.World.{World}
use filetransferdaemon.Object.{Object, base}
use filetransferdaemon.CurlDownloader.Run.Traces.{emitted}
use filetransferdaemon.FtdApp.{
  FtdApp, Ending, returns, store, downloads, touch, find_first, has_uuid, on_object,
}
use filetransferdaemon.FtdApp.Adding.Answers.{downloads-touch}
use filetransferdaemon.FtdApp.Canceling.{
  dl_done, cancel_request, cancel_named, locate, cancel_found,
}
use filetransferdaemon.FtdApp.Heap.{IsValid, is_listed}
use filetransferdaemon.FtdApp.Heap.Lists.{find_first-some}
use filetransferdaemon.FtdApp.Heap.Frames.{Alike}
use filetransferdaemon.FtdApp.Heap.Removing.{find_first_itself}
use filetransferdaemon.Daemon.Automatic.{on_slot, on_effect, on_effects}
use filetransferdaemon.FtdApp.{Work}
use filetransferdaemon.FtdApp.Canceling.{add_work}
use filetransferdaemon.FtdApp.Heap.{is_in}
use filetransferdaemon.FtdApp.Heap.Frames.{same-Alike, Alike-IsValid}
use filetransferdaemon.FtdApp.Heap.Removing.{Struck}

-- Since `a`, the object at `p` has become `o`, and nothing else has changed but the effects.
pub record Only (p : ℕ) (o : Object) (a b : FtdApp) : Type 0 where
  pub at : b.heap p ≡ some o
  pub others : (q : ℕ) → q == p ≡ false → b.heap q ≡ a.heap q
  pub lists : (u : Text) → downloads u b.transfers ≡ downloads u a.transfers
  pub fresh : b.fresh ≡ a.fresh
  pub work : b.work ≡ a.work

-- An operation that returned and left such a daemon.
abbrev pub Left : ℕ → Object → FtdApp → FtdApp × Ending → Type 0
Left p o a (b, ending) = Only p o a b × (ending ≡ returns)

pub Only-Alike :
    (p : ℕ) (o o' : Object) (a b : FtdApp)
    → a.heap p ≡ some o
    → Keeps (base o) (base o')
    → Only p o' a b
    → Alike a b
Only-Alike p o o' a b e k only = record {
  fresh = only.fresh;
  same = only.lists;
  forth = λ q x f. elim (Bool-cases (q == p)) [
    | inl here ↦ (o', ap b.heap ((==_iff q p).0 here) ∙ only.at)
    | inr other ↦ (x, only.others q other ∙ f)
  ];
  back = λ q r f. elim (Bool-cases (q == p)) [
    | inl here ↦
        let is : o' ≡ r =
          some-injective o' r (sym only.at ∙ ap b.heap (sym ((==_iff q p).0 here)) ∙ f) in
        (
          o,
          ap a.heap ((==_iff q p).0 here) ∙ e,
          ap (λ x. (base x).url) (sym is) ∙ k.url,
          ap (λ x. (base x).user) (sym is) ∙ k.user,
        )
    | inr other ↦ (r, sym (only.others q other) ∙ f, refl, refl)
  ];
}

pub Only-store : (p : ℕ) (o o' : Object) (a b : FtdApp) → Only p o a b → Only p o' a (store b p o')
Only-store p o o' a b k = record {
  at = ground arith;
  others = λ q other. rw other (k.others q other);
  lists = k.lists;
  fresh = k.fresh;
  work = k.work;
}

pub Only-effects :
    (p : ℕ) (o : Object) (a b : FtdApp) (effects : List Effect)
    → Only p o a b
    → Only p o a (record b { effects = effects })
Only-effects p o a b effects k = record {
  at = k.at;
  others = k.others;
  lists = k.lists;
  fresh = k.fresh;
  work = k.work;
}

pub touch-work : (user : Text) (a : FtdApp) → (touch user a).work ≡ a.work
touch-work user a = unfold touch in ground arith

pub told :
    (w : World) (p : ℕ) (b : FtdApp) (es : List Effect)
    → (dl_done w p b).1 ≡ returns
    → on_effects w (emit (app_dl_done p) ∷ es) b ≡ on_effects w es (dl_done w p b).0
unfolding on_effects on_effect on_slot
told w p b es h = rw (h, on_effects) refl

-- Effects that tell nobody.
pub on_effects-quiet :
    (w : World) (p : ℕ) (o : Object) (a b : FtdApp) (es : List Effect)
    → emitted es ≡ []
    → Only p o a b
    → Left p o a (on_effects w es b)
unfolding on_effects on_effect
on_effects-quiet w p o a b [] h k = (k, refl)
on_effects-quiet w p o a b (emit s ∷ es) h k = absurd (cc)
on_effects-quiet w p o a b (e ∷ es) h k =
    on_effects-quiet w p o a _ es h (Only-effects p o a b (b.effects ++ e ∷ []) k)

-- No other download of the user has the UUID.
abbrev pub IsOnly : ℕ → Text → Text → FtdApp → Type 0
IsOnly p user uuid a =
    (q : ℕ) (x : Object)
    → is_listed a user q ≡ true
    → a.heap q ≡ some x
    → (base x).uuid ≡ uuid
    → q ≡ p

find_or :
    (x y : Option ℕ) (p : ℕ)
    → y ≡ some p
    → ((q : ℕ) → x ≡ some q → q ≡ p)
    → (elim x [ none ↦ y | some q ↦ some q ]) ≡ some p
find_or none y p e h = e
find_or (some q) y p e h = ap some (h q refl)

uuid_of :
    (x : Object) (uuid : Text) (y : Option Object)
    → y ≡ some x
    → on_object (has_uuid uuid) y ≡ true
    → (base x).uuid ≡ uuid
uuid_of x uuid y e h = (text_eq_iff (base x).uuid uuid).0 (rw e at h)

-- The search of CancelDownload finds the download itself.
pub locate_itself :
    (name : ℕ → Text) (a : FtdApp) (p : ℕ) (o : Object)
    → IsValid name a
    → a.heap p ≡ some o
    → IsOnly p (name (base o).user) (base o).uuid a
    → locate (base o).uuid (base o).url a.heap (downloads (name (base o).user) a.transfers) ≡ some p
unfolding locate
locate_itself name a p o v e alone =
    let u = name (base o).user in
    let by_url = find_first_itself name a p o v e in
    elim (Bool-cases (is_empty (base o).uuid)) [
      | inl no_uuid ↦ rw (no_uuid, by_url) refl
      | inr uuid ↦ rw uuid (
          find_or (find_first a.heap (has_uuid (base o).uuid) (downloads u a.transfers)) _ p by_url
            (λ q h.
              let (i, t) =
                find_first-some a.heap (has_uuid (base o).uuid) (downloads u a.transfers) q h in
              let (x, g) = v.present u q i in
              alone q x i g (uuid_of x (base o).uuid (a.heap q) g t)))
    ]

-- What dlDone asks for: the user's name, the URL and the UUID.
pub cancel_request_named :
    (w : World) (n uuid url : Text) (a : FtdApp)
    → cancel_request w
        (text_object
          (insert (codes "uuid") uuid (insert (codes "url") url (insert (codes "user") n []))))
        a
      ≡ cancel_named w n uuid url a
unfolding cancel_request text_object insert lookup text_eq text_lt
cancel_request_named w n uuid url a = refl

pub cancel_named-found :
    (w : World) (n uuid url : Text) (p : ℕ) (o : Object) (a : FtdApp)
    → locate uuid url a.heap (downloads n a.transfers) ≡ some p
    → a.heap p ≡ some o
    → cancel_named w n uuid url a ≡ cancel_found w p o (touch n a)
unfolding cancel_named
cancel_named-found w n uuid url p o a found e =
    rw (downloads-touch n a n, cancel_named, found, cancel_named, e) refl

-- What strikes a download out after it has changed strikes it out of what was before.
pub Struck-before :
    (p : ℕ) (o : Object) (a b d : FtdApp) (jobs : List Work)
    → Only p o a b
    → Struck p (add_work jobs b) d
    → Struck p a d
unfolding add_work
Struck-before p o a b d jobs k s = record {
  fresh = s.fresh ∙ k.fresh;
  heap = λ q. elim (Bool-cases (q == p)) [
    | inl here ↦ rw here (rw here at (s.heap q))
    | inr other ↦ rw other (rw other at (s.heap q) ∙ k.others q other)
  ];
  lists = λ u q. s.lists u q ∙ ap (λ ps. if q == p then false else is_in q ps) (k.lists u);
  nodup = s.nodup;
}

pub worked-IsValid :
    (name : ℕ → Text) (a : FtdApp) (jobs : List Work)
    → IsValid name a
    → IsValid name (add_work jobs a)
unfolding add_work
worked-IsValid name a jobs v = Alike-IsValid name a _ (same-Alike a _ refl refl (λ u. refl)) v
