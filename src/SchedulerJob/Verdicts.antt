-- ===== src/SchedulerJob/Verdicts.antt =====
-- What `errorHandler` throws, for each message.
use blockchain_task_server.Common.{
  String, Bool, true, false, some, List, [], ◌∷◌, ◌≡◌, refl, arith, any, if◌then◌else◌,
}
use blockchain_task_server.Exceptions.{
  normal, fatal, Exception, caught, Thrown, exception, message_of, new_exception, err004, err1002,
  err1003, err1004, err1005, err1009, err1010,
}
use blockchain_task_server.Effects.{err}
use blockchain_task_server.SchedulerJob.ErrorHandler.{matches, raised, classify, error_handler}

-- The failures that pass by themselves: of the node, and of the way to it.
abbrev pub transient_patterns : List String
transient_patterns = err1002 ∷ err1003 ∷ err1004 ∷ err1005 ∷ err1009 ∷ err1010 ∷ []

abbrev pub is_transient : Thrown → Bool
is_transient e = any (matches e) transient_patterns

-- `errorHandler` throws for every error: an exception of the program that keeps the caught message, and
-- whose level is normal exactly where one of the transient patterns occurs in the message.
pub error_handler_level :
    {A : Type 0} (e : Thrown)
    → (x : Exception) × (error_handler {A = A} e ≡ err (exception x))
      × (x.level ≡ (if is_transient e then normal else fatal))
      × (x.payload ≡ some (caught (message_of e)))
unfolding error_handler new_exception
error_handler_level e = (classify e, refl, ground arith, ground arith)

classify_network :
    (e : Thrown)
    → matches e err1002 ≡ false
    → matches e err1003 ≡ false
    → matches e err1004 ≡ true
    → classify e ≡ raised err004 normal e
unfolding classify
classify_network e h1 h2 h3 = rw (h1, h2, h3)

raised_level : (e : Thrown) → (raised err004 normal e).level ≡ normal
unfolding new_exception
raised_level e = refl

classify_blank : (e : Thrown) → (classify (exception (raised err004 normal e))).level ≡ fatal
unfolding classify matches new_exception
classify_blank e = refl

-- A failure to detect the network, which matches neither of the two tests before, is normal when it is
-- classified once, and fatal when what was thrown is classified again.
pub error_handler_twice :
    (e : Thrown)
    → matches e err1002 ≡ false
    → matches e err1003 ≡ false
    → matches e err1004 ≡ true
    → ((classify e).level ≡ normal) × ((classify (exception (classify e))).level ≡ fatal)
error_handler_twice e h1 h2 h3 = rw (classify_network e h1 h2 h3) (raised_level e, classify_blank e)
