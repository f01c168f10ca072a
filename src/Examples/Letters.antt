-- ===== src/Examples/Letters.antt =====
-- The dead letter queue of pkg/dlq at work.
use rdispatch.Common.{ℕ, ◌≡◌, refl, List, [], ◌∷◌, ◌++◌, done, Yields, arith}
use rdispatch.Common.Int.{pos}
use rdispatch.Dlq.Memory.{Message, Memory, stamp, push, drop_oldest}
use rdispatch.Dlq.Window.{newest, IsValid, push-newest, push_all, stamped, push_all-newest}

abbrev pub first_letter : Message
first_letter = record {
  original_topic = "alerts";
  key = [];
  value = 1 ∷ [];
  error = "timeout";
  attempts = pos 3;
  failed_at = 5;
  headers = [];
}

-- A letter without a time.
abbrev pub second_letter : Message
second_letter = record first_letter { error = "refused"; failed_at = 0 }

abbrev pub one_letter : Memory
one_letter = record { messages = first_letter ∷ []; capacity = pos 2 }

pub one_letter-IsValid : IsValid 2 one_letter
one_letter-IsValid = record { sized = refl; positive = omega arith; bounded = omega arith }

-- The third message pushes the first one out.
third_drops :
    push_all ((8, second_letter) ∷ (9, second_letter) ∷ []) one_letter
    ≡ done
        (record { messages = stamp 8 second_letter ∷ stamp 9 second_letter ∷ []; capacity = pos 2 })
unfolding push_all push drop_oldest
third_drops = refl

push-newest_example :
    Yields
      (λ r. (r.messages ≡ newest 2 (first_letter ∷ stamp 8 second_letter ∷ [])) × IsValid 2 r)
      (push one_letter 8 second_letter)
push-newest_example = push-newest 2 one_letter 8 second_letter one_letter-IsValid

abbrev later : List (ℕ × Message)
later = (8, second_letter) ∷ (9, second_letter) ∷ []

push_all-newest_example :
    Yields
      (λ r. (r.messages ≡ newest 2 (one_letter.messages ++ stamped later)) × IsValid 2 r)
      (push_all later one_letter)
push_all-newest_example = push_all-newest 2 one_letter later one_letter-IsValid

abbrev fitting : List (ℕ × Message)
fitting = (8, second_letter) ∷ []
