-- ===== src/Upload/Results.antt =====
-- upload.cpp against SocketFdDownloader.cpp: what the user is told.
use filetransferdaemon.Prelude.{
  ◌≡◌, refl, ap, ◌∙◌, text_eq, Bool-cases, inl, inr, true, false, not, ◌&&◌, none, some, List, [],
  ◌∷◌, ◌++◌, Text, codes, starts_with, is_empty, if◌then◌else◌,
}
use filetransferdaemon.Commands.{cmd_ok, cmd_code}
use filetransferdaemon.FtdApp.{reply}
use filetransferdaemon.FtdClient.{reply_cmd, is_code}
use filetransferdaemon.SocketFdDownloader.Run.{Post}
use filetransferdaemon.Upload.{Visit, Page, main, post, on_reply, hand_over}

-- What the thread of the upload sends last, to a program that is connected: "err" if the parser
-- threw, and "Im done" in any case. The texts end with a zero byte.
unfoldable pub last_messages : Post → List Text
last_messages p =
    let done = codes "Im done" ++ 0 ∷ [] in
    if p.throws then (codes "err" ++ 0 ∷ []) ∷ done ∷ [] else done ∷ []

unfoldable pub first_message : List Text → Text
first_message [] = []
first_message (t ∷ ts) = t

-- A visit that gets as far as the upload: the session is good and the daemon says OK and
-- acknowledges all that it is handed.
pub record Reaches (v : Visit) : Type 0 where
  pub session : is_empty v.cookie ≡ false
  pub logged_in : (v.is_valid && not (is_empty v.user)) ≡ true
  pub multi : v.is_multi ≡ true
  pub descriptor : v.zero_fd ≡ false
  pub connected : v.connects ≡ true

-- The three acknowledgements of the thread.
pub record Acknowledged (v : Visit) : Type 0 where
  pub fd : v.fd_answer ≡ codes "!"
  pub boundary : v.boundary_answer ≡ codes "!"
  pub content_length : v.length_answer ≡ codes "!"

main_posts : (v : Visit) → Reaches v → main v ≡ some (on_reply v)
unfolding main post
main_posts v r = rw (r.session, r.logged_in, r.multi, r.descriptor, r.connected, main, post) refl

accepts_ok : (v : Visit) → v.reply ≡ reply cmd_ok → on_reply v ≡ hand_over v
unfolding on_reply reply_cmd is_code cmd_code text_eq
accepts_ok v e = rw (e, on_reply) refl

told :
    (v : Visit) (p : Post)
    → Acknowledged v
    → v.last_answer ≡ first_message (last_messages p)
    → (hand_over v).result ≡ p.throws
unfolding hand_over starts_with last_messages first_message
told v p k e = elim (Bool-cases p.throws) [
  | inl threw ↦ rw (k.fd, k.boundary, k.content_length, e, threw, hand_over, last_messages) refl
  | inr fine ↦ rw (k.fd, k.boundary, k.content_length, e, fine, hand_over, last_messages) refl
]

-- When the daemon says OK and the thread of the upload acknowledges all that it is handed, the page
-- says that the upload succeeded exactly when the thread's parser threw.
pub upload_told_opposite :
    (v : Visit) (p : Post)
    → Reaches v
    → v.reply ≡ reply cmd_ok
    → Acknowledged v
    → v.last_answer ≡ first_message (last_messages p)
    → (page : Page) × (main v ≡ some page) × (page.result ≡ p.throws)
upload_told_opposite v p r e k l =
    (on_reply v, main_posts v r, ap (λ page. page.result) (accepts_ok v e) ∙ told v p k l)

-- When the daemon's answer holds no command, as when there is none, the page says that the upload
-- succeeded.
upload_unanswered :
    (v : Visit)
    → Reaches v
    → reply_cmd v.reply ≡ none
    → (page : Page) × (main v ≡ some page) × (page.result ≡ true)
unfolding on_reply
upload_unanswered v r e = (on_reply v, main_posts v r, rw (e, on_reply) refl)
