-- ===== src/Tests/Pages.antt =====
-- User 1 reads three messages of conversation 77, one to a page; two have one time.
use nebula_im.Base.{ℕ, ◌≡◌, refl, true, false, inl, inr, arith, List, [], ◌∷◌, none}
use nebula_im.Base.Keys.{text}
use nebula_im.Message.Tables.{MessageRecord}
use nebula_im.Message.Receipts.{Answers, can_read_conversation}
use nebula_im.Message.Pages.{PageRequest}
use nebula_im.Message.Pages.Whole.{read_pages, read_pages-reversed}

abbrev letter : ℕ → ℕ → MessageRecord
letter id time = record {
  message_id = id;
  conversation_id = 77;
  from_user_id = 1;
  client_sequence_id = id;
  to_user_id = 2;
  group_id = 0;
  message_type = 1;
  content = text "hi";
  status = 1;
  recalled = false;
  recalled_at = 0;
  created_at = time;
  updated_at = time;
}

abbrev letters : ℕ → List MessageRecord
letters conversation_id = letter 7 200 ∷ letter 6 100 ∷ letter 5 100 ∷ []

abbrev owner : Answers
owner = record {
  authorized = true;
  valid_deps = true;
  user_exists = λ u. true;
  is_owner = λ u c. true;
  message_by_id = λ m. none;
  connects = true;
  begins = true;
  first = true;
  second = true;
  commits = true;
}

abbrev one_to_a_page : PageRequest
one_to_a_page = record {
  requester_user_id = 1;
  conversation_id = 77;
  before_time = 0;
  before_message_id = 0;
  page_size = 1;
}

owner_reads : can_read_conversation owner 1 77 ≡ true
unfolding can_read_conversation
owner_reads = refl

read_pages-reversed_example :
    read_pages 4 owner letters one_to_a_page ≡ letter 5 100 ∷ letter 6 100 ∷ letter 7 200 ∷ []
read_pages-reversed_example =
    read_pages-reversed 4 owner letters one_to_a_page refl refl owner_reads
      (
        omega arith,
        (
          omega arith,
          (
            (inl (omega arith), (inl (omega arith), tt)),
            (
              omega arith,
              (
                omega arith,
                ((inr (refl, omega arith), tt), (omega arith, (omega arith, (tt, tt)))),
              ),
            ),
          ),
        ),
      )
      (omega arith) refl refl
