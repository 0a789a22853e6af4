-- ===== src/Ivylogger/Lines.antt =====
-- What src/ivylogger/ivylogger.cpp writes, and when it starts.
use Prim.Native.String.{String}
use mathlib.Core.List.{append_assoc, append-nil}
use modem_tester.Common.{
  ◌≡◌, List, [], ◌∷◌, ◌++◌, Option, none, some, Option-cases, inl, inr, sym, ◌∙◌,
}
use modem_tester.Ivylogger.{bindings, on_message, receive, ivy_main_loop}

-- The line of a message: the date and what was captured, each with a space after it.
abbrev pub line : String → List String → List String
line date argv = on_message date argv []

-- The lines of a message, one for each binding that it matches.
module _ (captures : String → String → Option (List String)) where
  unfoldable pub lines_for : List String → String → String → List String
  lines_for [] date message = []
  lines_for (regexp ∷ regexps) date message =
      let rest = lines_for regexps date message in
      elim (captures regexp message) [ none ↦ rest | some argv ↦ line date argv ++ rest ]

  unfoldable pub log_of : List (String × String) → List String
  unfolding lines_for
  log_of [] = []
  log_of ((date, message) ∷ messages) = lines_for bindings date message ++ log_of messages

  receive-lines :
      (regexps : List String) (date message : String) (os : List String)
      → receive captures regexps date message os ≡ os ++ lines_for regexps date message
  unfolding receive on_message lines_for
  receive-lines [] date message os = sym (append-nil os)
  receive-lines (regexp ∷ regexps) date message os = elim (Option-cases (captures regexp message)) [
    | inl e ↦ rw (e, receive, lines_for) (receive-lines regexps date message os)
    | inr (argv, e) ↦
        rw (e, receive, lines_for)
          (receive-lines regexps date message (on_message date argv os)
            ∙ append_assoc os (line date argv) (lines_for regexps date message))
  ]

  -- Whatever the regular expressions of the four bindings capture: the log is extended by one line
  -- for each binding that a message matches, with the messages in the order of the bus and the
  -- bindings in the order of the program, and nothing else is written.
  pub ivylogger-logs :
      (messages : List (String × String)) (os : List String)
      → ivy_main_loop captures messages os ≡ os ++ log_of messages
  unfolding ivy_main_loop log_of
  ivylogger-logs [] os = sym (append-nil os)
  ivylogger-logs ((date, message) ∷ messages) os =
      ivylogger-logs messages (receive captures bindings date message os)
      ∙ rw (receive-lines bindings date message os)
          (append_assoc os (lines_for bindings date message) (log_of messages))
