-- ===== src/Message/Pages/Whole.antt =====
-- Reading a conversation page by page, each from the cursor of the page before.
use nebula_im.Base.{
  ℕ, zero, suc, ◌+◌, ◌<◌, ◌≡◌, refl, sym, ap, ◌∙◌, true, false, List, [], ◌∷◌, ◌++◌, append_assoc,
  length, length-append, take, ◌==◌, if◌then◌else◌, inl, inr, arith, subst,
}
use nebula_im.Message.Tables.{MessageRecord}
use nebula_im.Message.Receipts.{Answers, can_read_conversation}
use nebula_im.Message.Pages.{
  older_rows, list_rows, PageRequest, Page, page_limit, reversed, filled_page, page_of,
  list_conversation_messages,
}
use nebula_im.Message.Pages.Cursor.{
  Descends, older_rows_lem, older_rows_all, splits, page_of_last, page_of_more, reversed_append,
}

-- A client that reads on while there is more, and puts each page before the later ones.
unfoldable pub read_pages :
    ℕ → Answers → (ℕ → List MessageRecord) → PageRequest → List MessageRecord
unfolding list_conversation_messages
read_pages zero a newest_first req = []
read_pages (suc fuel) a newest_first req =
    let page = list_conversation_messages a true newest_first req in
    let earlier = read_pages fuel a newest_first (record req {
      before_time = page.next_before_time;
      before_message_id = page.next_before_message_id;
    }) in
    if page.has_more then earlier ++ page.messages else page.messages

page_limit-pos : (n : ℕ) → 0 < page_limit n
page_limit-pos n = ground arith

readable_ids :
    (a : Answers) (u c : ℕ)
    → can_read_conversation a u c ≡ true
    → ((u == 0) ≡ false) × ((c == 0) ≡ false)
unfolding can_read_conversation
readable_ids a u c h = (ground arith, ground arith)

-- The page of a request that no guard refuses.
list_conversation_messages_lem :
    (a : Answers) (newest_first : ℕ → List MessageRecord) (req : PageRequest)
    → a.authorized ≡ true
    → a.valid_deps ≡ true
    → can_read_conversation a req.requester_user_id req.conversation_id ≡ true
    → list_conversation_messages a true newest_first req
      ≡ page_of (page_limit req.page_size) (
          take
            (suc (page_limit req.page_size))
            (older_rows req.before_time req.before_message_id (newest_first req.conversation_id)))
unfolding list_conversation_messages list_rows
list_conversation_messages_lem a newest_first req h i j =
    let (u, c) = readable_ids a req.requester_user_id req.conversation_id j in
    let e : page_limit req.page_size + 1 ≡ suc (page_limit req.page_size) = omega arith in
    rw (j, h, i, u, c, e)

-- What the client makes of a page.
abbrev next_pages : (PageRequest → List MessageRecord) → PageRequest → Page → List MessageRecord
next_pages earlier req page =
    if page.has_more
    then earlier (record req {
      before_time = page.next_before_time;
      before_message_id = page.next_before_message_id;
    })
      ++ page.messages
    else page.messages

next_pages_last :
    (earlier : PageRequest → List MessageRecord) (req : PageRequest) (rows : List MessageRecord)
    → next_pages earlier req (filled_page rows false) ≡ rows
unfolding filled_page
next_pages_last earlier req [] = refl
next_pages_last earlier req (r ∷ rows) = refl

next_pages_more :
    (earlier : PageRequest → List MessageRecord) (req : PageRequest) (k : MessageRecord)
    (rows : List MessageRecord)
    → next_pages earlier req (filled_page (k ∷ rows) true)
      ≡ earlier (record req { before_time = k.created_at; before_message_id = k.message_id })
        ++ (k ∷ rows)
unfolding filled_page
next_pages_more earlier req k rows = refl

-- A page, and the pages before it, in order.
reversed_split :
    (front : List MessageRecord) (k : MessageRecord) (later : List MessageRecord)
    → reversed (front ++ (k ∷ later)) ≡ reversed later ++ (k ∷ reversed front)
reversed_split front k later =
    reversed_append front (k ∷ later) ∙ append_assoc (reversed later) (k ∷ []) (reversed front)

read_rest :
    (fuel : ℕ) (a : Answers) (newest_first : ℕ → List MessageRecord) (req : PageRequest)
    (seen rest : List MessageRecord)
    → a.authorized ≡ true
    → a.valid_deps ≡ true
    → can_read_conversation a req.requester_user_id req.conversation_id ≡ true
    → newest_first req.conversation_id ≡ seen ++ rest
    → Descends (newest_first req.conversation_id)
    → older_rows req.before_time req.before_message_id (newest_first req.conversation_id) ≡ rest
    → length rest < fuel
    → read_pages fuel a newest_first req ≡ reversed rest
unfolding read_pages
read_rest zero a newest_first req seen rest h i j e d o l = absurd (omega arith)
read_rest (suc fuel) a newest_first req seen rest h i j e d o l =
    let earlier = read_pages fuel a newest_first in
    let limit = page_limit req.page_size in
    ap (next_pages earlier req) (
      list_conversation_messages_lem a newest_first req h i j
      ∙ ap (λ t. page_of limit (take (suc limit) t)) o)
    ∙ elim (splits limit rest (page_limit-pos req.page_size)) [
      | inl short ↦
          ap (next_pages earlier req) (page_of_last limit rest short)
          ∙ next_pages_last earlier req (reversed rest)
      | inr (front, (k, (r, (later, (cut, m))))) ↦
          let whole =
            e ∙ ap (λ t. seen ++ t) cut ∙ sym (append_assoc seen front (k ∷ (r ∷ later))) in
          let shorter : length (r ∷ later) < fuel =
            omega (arith, ap length cut, length-append front (k ∷ (r ∷ later))) in
          ap (λ t. next_pages earlier req (page_of limit (take (suc limit) t))) cut
          ∙ ap (λ n. next_pages earlier req (page_of n (take (suc n) (front ++ (k ∷ (r ∷ later))))))
              (sym m)
          ∙ ap (next_pages earlier req) (page_of_more front k r later)
          ∙ next_pages_more earlier req k (reversed front)
          ∙ ap (λ t. t ++ (k ∷ reversed front))
              (read_rest fuel a newest_first
                (record req { before_time = k.created_at; before_message_id = k.message_id })
                ((seen ++ front) ++ (k ∷ [])) (r ∷ later) h i j
                (whole ∙ sym (append_assoc (seen ++ front) (k ∷ []) (r ∷ later))) d
                (ap (older_rows k.created_at k.message_id) whole
                  ∙ older_rows_lem (seen ++ front) k (r ∷ later) (subst Descends whole d))
                shorter)
          ∙ sym (ap reversed cut ∙ reversed_split front k (r ∷ later))
    ]

-- A client that asks for a conversation page by page with ListConversationMessages, from no
-- cursor and then from the cursor of the page before while there is more, reads every message
-- of it exactly once and in order of time. This holds for every page size. The caller is
-- authorized and may read the conversation, the queries are answered from the same rows,
-- which have positive times and ids and strictly descend by time and id, and more requests
-- are allowed than there are rows.
pub read_pages-reversed :
    (fuel : ℕ) (a : Answers) (newest_first : ℕ → List MessageRecord) (req : PageRequest)
    → a.authorized ≡ true
    → a.valid_deps ≡ true
    → can_read_conversation a req.requester_user_id req.conversation_id ≡ true
    → Descends (newest_first req.conversation_id)
    → length (newest_first req.conversation_id) < fuel
    → req.before_time ≡ 0
    → req.before_message_id ≡ 0
    → read_pages fuel a newest_first req ≡ reversed (newest_first req.conversation_id)
read_pages-reversed fuel a newest_first req h i j d l first_time first_id =
    read_rest fuel a newest_first req [] (newest_first req.conversation_id) h i j refl d
      (ap (λ t. older_rows t req.before_message_id (newest_first req.conversation_id)) first_time
        ∙ ap (λ t. older_rows 0 t (newest_first req.conversation_id)) first_id
        ∙ older_rows_all (newest_first req.conversation_id))
      l
