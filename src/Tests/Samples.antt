-- ===== src/Tests/Samples.antt =====
-- Small data for the witnesses: a library of big numbers, two schedulers, and what a job knows.
use blockchain_task_server.Common.{
  ℕ, zero, suc, ◌+◌, ◌-◌, ◌*◌, ◌/◌, ◌^◌, String, Bool, true, false, Option, none, some, [], ◌∷◌,
  ◌≡◌, refl, ap, ◌∙◌, ltb, leb, ◌==◌, if◌then◌else◌, str_eq,
}
use blockchain_task_server.Entities.{Scheduler}
use blockchain_task_server.Platform.Memory.{Memory}
use blockchain_task_server.BigNumber.{BigNumberLib, IsExact}
use blockchain_task_server.SchedulerLogger.{new_logger}
use blockchain_task_server.SchedulerJob.{World, Context}

-- Numbers by tallies.
abbrev pub tally : ℕ → String
tally zero = ""
tally (suc n) = String.◌∷◌ "|" (tally n)

abbrev pub count : String → ℕ
count String.[] = 0
count (String.◌∷◌ c s) = suc (count s)

pub count-tally : (n : ℕ) → count (tally n) ≡ n
count-tally zero = refl
count-tally (suc n) = ap suc (count-tally n)

abbrev pub tallies : BigNumberLib ℕ
tallies = record {
  new_big = count;
  to_string = tally;
  plus = λ a b. a + b;
  minus = λ a b. a - b;
  multiplied_by = λ a b. a * b;
  divided_by = λ a b. a / b;
  to_power = λ a b. a ^ b;
  negated = λ a. 0 - a;
  shifted_up = λ a n. a * 10 ^ n;
  shifted_down = λ a n. a / 10 ^ n;
  fixed = λ a n. tally a;
  zero? = λ a. a == 0;
  greater? = λ a b. ltb b a;
  greater_or_equal? = λ a b. leb b a;
  less? = λ a b. ltb a b;
  less_or_equal? = λ a b. leb a b;
  print_number = tally;
  read_number = count;
}

pub tallies-IsExact : IsExact tallies
tallies-IsExact = record {
  new_big-to_string = count-tally;
  plus_law = λ a b. rw (count-tally a, count-tally b, count-tally (a + b));
  minus_law = λ a b h. rw (count-tally a, count-tally b, count-tally (a - b));
  times_law = λ a b. rw (count-tally a, count-tally b, count-tally (a * b));
  zero_law = λ a. rw (count-tally a);
  greater_law = λ a b. rw (count-tally a, count-tally b);
  greater_or_equal_law = λ a b. rw (count-tally a, count-tally b);
  less_law = λ a b. rw (count-tally a, count-tally b);
  less_or_equal_law = λ a b. rw (count-tally a, count-tally b);
  number_law = λ a. count-tally _ ∙ count-tally a;
}

abbrev pub scheduler : String → Bool → Option ℕ → Scheduler
scheduler id process pid = record {
  id = id;
  type = "NFT";
  identity = id;
  cron = "EVERY_MINUTE";
  block_number = some 0;
  pid = pid;
  error = false;
  process = process;
  status = true;
}

-- Job "a" is idle and due, job "b" is marked as working, and job "c" has no cron job.
abbrev pub memory_state : {W : Type 0} → Memory W
memory_state = record {
  tables = record {
    schedulers =
        scheduler "a" false none ∷ scheduler "b" true (some 7) ∷ scheduler "c" false none ∷ [];
    others = [];
  };
  pending = [];
  jobs = "a" ∷ "b" ∷ [];
}

abbrev or_blank : Option String → String
or_blank none = ""
or_blank (some s) = s

abbrev pub context : Context
context = record {
  cron_expression = λ key. if str_eq key "EVERY_MINUTE" then some "* * * * *" else none;
  is_cron_string = λ cron. str_eq (or_blank cron) "* * * * *";
  to_json = λ e. some e.message;
}

unfoldable pub world : {W : Type 0} → World (Memory W)
unfolding new_logger
world = record { env = memory_state; cron = some "* * * * *"; logger = new_logger "a" 0; logs = [] }
