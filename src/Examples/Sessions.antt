-- ===== src/Examples/Sessions.antt =====
-- Routers, configurations and sessions
use http_router.Base.{
  ◌≡◌, ◌↔◌, refl, Bool, true, Option, none, some, List, [], ◌∷◌, ◌++◌, map, arith, Bytes, codes,
  isxdigit, is_digit,
}
use http_router.Beast.{access_control_allow_origin}
use http_router.Request.{Request, make_request}
use http_router.Response.{Response, Message, string_body, stock_response, set}
use http_router.Uri.Escape.{urldecode_from, opens, hex}
use http_router.Uri.Target.{split, find_query, query_of}
use http_router.Filters.{cors, carry_on}
use http_router.PathCompiler.Key.{default}
use http_router.PathCompiler.Matcher.{Engine, Params, make_matcher, make_description}
use http_router.Router.{Router, make_route, prefixes, has_up_dir, handle_request, sending_from}
use http_router.Router.Prefixes.{IsUnder, prefixes-IsUnder}
use http_router.Router.Print.{Output, print, filters_output, IsListing, print-IsListing}
use http_router.Router.UpDir.{any_up, tail, segments, has_up_dir-segments}
use http_router.Router.Config.{
  cfg, Subs, no_subs, sub, Handlers, new_cfg, compiled, surrender, give_handlers, give_filters,
  at_verb, compile_handlers, compile_all,
}
use http_router.Router.Config.Maps.{at}
use http_router.Router.Config.Compiled.{
  entries_for, handler_entry, collected_subs, compiled-entries,
}
use http_router.Router.Answers.{IsAnswered, AnswersFilter, AnswersRouter, stock_response-answers}
use http_router.Router.Answers.Requests.{handle_request-answers}
use http_router.Session.{
  Queue, queue_on_write, Session, new_session, session_run, read_request, on_read,
}
use http_router.Session.Order.{IsWritten, queue_on_write-IsWritten}
use http_router.Session.Reads.{PreparesAll, IsRead, on_read-answers}
use http_router.Session.Flow.{Reaches, begins, gets, with_reads}
use http_router.Session.Flow.Sound.{IsSound, requests, Reaches-IsSound}
use http_router.Examples.Http.{beast, get_u, fresh_response}

prefixes-IsUnder_example :
    (covered : Bool) × (prefixes (codes "/u") (b'/' ∷ codes "u/7") ≡ some covered)
    × ((covered ≡ true) ↔ IsUnder (codes "/u") (b'/' ∷ codes "u/7"))
prefixes-IsUnder_example = prefixes-IsUnder (codes "/u") (codes "u/7")

has_up_dir-segments_example :
    has_up_dir (codes "/u/../etc") ≡ any_up (tail (segments (codes "/u/../etc")))
has_up_dir-segments_example = has_up_dir-segments (codes "/u/../etc")

-- An engine that matches equal texts only
abbrev pub literal : Engine
literal = record {
  Regex = Bytes;
  compile = λ icase optimize s. some s;
  regex_match = λ regex s. some (s ∷ []);
}

module _ (Out : Type 0) where
  abbrev greet : Response beast Out → Params → Option (Response beast Out)
  greet resp params = stock_response beast Out 200 (codes "Hello") resp

  abbrev greeter : Router beast literal Out
  greeter = record {
    routes =
        (
          codes "GET",
          record {
            mask = codes "/u";
            matcher = record { regex = codes "/u"; keys = [] };
            callback = some greet;
          }
              ∷ [],
        )
        ∷ [];
    filters = ([], cors beast Out) ∷ [];
  }

  cors-AnswersFilter : AnswersFilter beast literal Out [] (cors beast Out)
  cors-AnswersFilter = record {
    preprocessed = λ resp s takes rooted under. (
      carry_on,
      set beast Out access_control_allow_origin (codes "*") resp,
      refl,
      record { same_sender = refl; same_req = refl; calls = refl },
    );
  }

  greeter-AnswersRouter : AnswersRouter beast literal Out greeter
  greeter-AnswersRouter = record {
    filters_answer = (cors-AnswersFilter, tt);
    routes_answer = (
      (
        λ resp params takes.
            stock_response-answers beast literal Out 200 (codes "Hello") resp takes,
        tt,
      ),
      tt,
    );
  }

handle_request-answers_example : IsAnswered beast literal (List (Message beast)) 1 fresh_response (
    handle_request beast literal
      (List (Message beast))
      (greeter (List (Message beast)))
      fresh_response)
handle_request-answers_example =
    handle_request-answers beast literal (List (Message beast)) (greeter (List (Message beast)))
      fresh_response (greeter-AnswersRouter (List (Message beast)))
      (λ msg out. (out ++ (msg ∷ []), refl))

abbrev session : Session beast literal
session =
    session_run beast literal
      (new_session beast literal (greeter (Queue beast)) (codes "s") (codes "::1"))

greeter-PreparesAll : PreparesAll beast literal (greeter (Queue beast))
unfolding sending_from
greeter-PreparesAll req header = (header, refl)

got_u : (request : Request) × (make_request get_u (codes "::1") [] ≡ some request)
unfolding make_request split urldecode_from opens isxdigit hex is_digit find_query query_of
got_u = (_, refl)

on_read-answers_example :
    (msg : Message beast) × (s' : Session beast literal) × (on_read beast literal
        (read_request get_u [])
        session
      ≡ some s')
    × IsRead beast literal msg session s'
on_read-answers_example =
    on_read-answers beast literal session get_u [] got_u.0 (greeter-AnswersRouter (Queue beast))
      (greeter-PreparesAll got_u.0) got_u.1

-- The session behind its first request
abbrev answered : Session beast literal
answered =
    (on_read-answers beast literal (with_reads beast literal 0 session) get_u [] got_u.0
      (greeter-AnswersRouter (Queue beast)) (greeter-PreparesAll got_u.0) got_u.1).1

answered-Reaches : Reaches beast literal (greeter (Queue beast)) true true answered
answered-Reaches =
    gets answered 0 get_u [] (begins (codes "s") (codes "::1")) refl
      (on_read-answers beast literal (with_reads beast literal 0 session) get_u [] got_u.0
        (greeter-AnswersRouter (Queue beast)) (greeter-PreparesAll got_u.0) got_u.1).2

Reaches-IsSound_example :
    IsSound beast literal
      (greeter (Queue beast))
      true
      true
      (requests beast literal answered-Reaches)
      answered
Reaches-IsSound_example =
    Reaches-IsSound beast literal (greeter (Queue beast)) true true answered
      (greeter-AnswersRouter (Queue beast)) greeter-PreparesAll answered-Reaches

abbrev hello : Message beast
hello = record { header = beast.fresh 200 11; body = string_body (codes "Hello") }

abbrev writing : Queue beast
writing = record { items = hello ∷ hello ∷ []; wire = hello ∷ []; writes = 0 }

queue_on_write-IsWritten_example :
    (was_full : Bool) × (q' : Queue beast) × (queue_on_write beast writing ≡ some (was_full, q'))
    × IsWritten beast writing was_full q'
queue_on_write-IsWritten_example = queue_on_write-IsWritten beast writing (omega arith)

abbrev Out : Type 0
Out = Queue beast

abbrev get_handlers : Bytes → Handlers beast literal Out
get_handlers mask =
    (codes "GET", record { mask = mask; callback = none; options = default } ∷ []) ∷ []

abbrev tree : Subs beast literal Out
tree = sub no_subs (codes "/api") (cfg (get_handlers (codes "/v")) [] no_subs)

tree_compiled :
    (router : Router beast literal Out) × (compiled beast literal Out
        (cfg (get_handlers (codes "/u")) [] tree)
      ≡ some (router, new_cfg beast literal Out))
unfolding compiled surrender give_handlers give_filters at_verb compile_handlers compile_all
    make_route make_matcher make_description
tree_compiled = (_, refl)

compiled-entries_example :
    (entries_for beast literal Out (codes "GET") tree_compiled.0
      ≡ map (handler_entry beast literal Out) (
          at (codes "GET") (get_handlers (codes "/u"))
          ++ collected_subs beast literal Out (codes "GET") tree))
    × (new_cfg beast literal Out ≡ new_cfg beast literal Out)
compiled-entries_example =
    compiled-entries beast literal Out (codes "GET") (get_handlers (codes "/u")) [] tree
      tree_compiled.0 (new_cfg beast literal Out) (refl, tt) tree_compiled.1

print-IsListing_example :
    (output : Output) × (print beast literal Out tree_compiled.0
      ≡ filters_output beast literal Out tree_compiled.0.filters ++ output)
    × IsListing beast literal Out tree_compiled.0.routes output
print-IsListing_example = print-IsListing beast literal Out tree_compiled.0
