-- ===== src/Lib.antt =====
-- Verification of the agent promotion control plane's web side: the view layer in
-- packages/promotion-ui/src and the server side of the Next application in apps/web/src.
--
-- The program. The control plane (a service that is called over HTTP) decides which agents may be
-- promoted. The web application loads a dashboard from it (lib/api.ts), shows it in views
-- (packages/promotion-ui), keeps it current with a stream of events (http-data-source.ts and
-- live.ts) and sends governed mutations back (app/[[...route]]/actions.ts, or http-data-source.ts
-- where the views are embedded elsewhere).
--
-- The files:
--   Prelude     the shared names, Boolean tests on the native numbers, options and lists
--   Js          JavaScript values, properties, `??`, spreads, text functions, the stable sort and
--               percent-encoding; Js/Platform is the interface to the runtime's numbers; Js/Sorting
--               is about the sort
--   View        packages/promotion-ui/src/types.ts: View/Candidate, View/Catalog, View/Transport
--   Fetch       requests, responses and thrown errors
--   Format      packages/promotion-ui/src/format.ts
--   EventCopy   packages/promotion-ui/src/event-copy.ts: the text of an event
--   Live        packages/promotion-ui/src/live.ts: Live/Decode the readers of a payload,
--               Live/Discovery createDiscoveredCandidate, Live/Apply applyPromotionEvent; about it,
--               Live/Window and Live/Feed (the window of recent events), Live/Orderly (the
--               invariant), Live/Lookup (by id), Live/Replay (redelivery), Live/Arrival and
--               Live/Batches (order of arrival)
--   Api         apps/web/src/lib/api.ts: Api/Decode the readers of a body, Api/Events mapEvent and
--               mapGate, Api/Candidates normalizeCandidate, Api/Catalog the evaluations, policies,
--               schedules and registry versions
--   Dashboard   loadDashboard of the same file: Dashboard/Reads getJson, Dashboard/Details the joins
--               of a detail with the criteria and gates, Dashboard/Assign policies and candidates,
--               Dashboard/Rows the requests of a detail page, Dashboard/Load the whole; about it,
--               Dashboard/Laws and Dashboard/Totality (when a dashboard is loaded), with
--               Dashboard/Printable (what the requests give),
--               Dashboard/Timeline (a candidate's events) and Dashboard/Agreement (with the live
--               update). Api/Gates is about the gates of Api
--   Finite      what it means that the numbers of a view model are finite, with Finite/Decoded (the
--               readers of api.ts), Finite/Loaded (loadDashboard) and Finite/Streamed (live.ts)
--   Routes      packages/promotion-ui/src/routes.ts; about it, Routes/Laws and Routes/Parts
--   Mutation    Mutation/Action apps/web/src/app/[[...route]]/actions.ts, Mutation/Source and
--               Mutation/Subscription packages/promotion-ui/src/http-data-source.ts; about them,
--               Mutation/Laws and Mutation/Agreement
--   Markup      the elements that a view returns; Markup/Outline what a user can do with them,
--               Markup/Quiet, Markup/Marks and Markup/Sound lemmas about it
--   Components  packages/promotion-ui/src/components.tsx; about it, Components/Outlines
--   Views       packages/promotion-ui/src/views, the list views: Views/Inventory candidates.tsx,
--               Views/Overview overview.tsx, Views/Automation automation.tsx, Views/Records the
--               others; about them, Views/Search, Views/Queue and Views/Cycle
--   Decision    packages/promotion-ui/src/views/candidate-detail.tsx: when a candidate may be
--               promoted, submitDecision and retryRegistry; Decision/Panel the panel's button and
--               the cells, Decision/Dialogs the state with its events; about them, Decision/Laws
--               (with the server action), Decision/Buttons and Decision/Exclusive (the invariant of
--               the state). A control that is not rendered, or is disabled, raises no event: the
--               handler of Decision/Dialogs ignores it there.
--               Decision/Page has the elements that the view returns: Decision/Page/Opening,
--               Matrix, Records, Aside and Modals its parts, Whole the view; about them, Outlines and
--               Controls (the outline), Presses, Offered and Pressed (which controls are offered, and
--               what confirming a decision does) and Labels
--   Screens     the elements that the other views return: Screens/Inventory candidates.tsx,
--               Screens/Registry registry.tsx, Screens/Records contract.tsx and audit.tsx,
--               Screens/Evaluations, Screens/Overview and Screens/Automation the views of the same
--               names; about them, Screens/Outlines, Screens/Front and Screens/Labels (the outlines)
--               and Screens/Headings
--   Copy        packages/promotion-ui/src/governed-copy.ts: the canonical text, and Copy/Body the
--               texts; about it, Copy/Canonical
--   Theme       packages/promotion-ui/src/theme.ts; about it, Theme/Variables
--   Shell       packages/promotion-ui/src/PromotionShell.tsx: the state, the view of a path, the
--               subscription; Shell/Wiring what an EventSource's signals do, Shell/Frame the
--               elements around a view; about it, Shell/Current (the item that is
--               shown as the current one), Shell/Stream, Shell/Cursor and Shell/Links
--   Web         apps/web/src/app: Web/Pages page.tsx, Web/Refresh and Web/Client
--               promotion-client.tsx, Web/Proxy the route handlers; about them, Web/Visits,
--               Web/Bursts, Web/Segments (the path that the proxy makes), Web/Forwarding, Web/Relay
--               (a mutation through the proxy) and Web/Resumption (the stream through it)
--   Examples    a concrete runtime over the natural numbers, tests and runs
--
-- The correspondence. A function of the source is a function of the same name in snake_case, a part
-- of its body that has a name of its own here is named for what it computes. An interface is a
-- record with its fields, a union of literals a data type, an open set of texts a String, `null`
-- and an absent field of a view model are `none`. A function that may throw gives an `Outcome`. JSON
-- bodies are `Value`, where an object is the list of its fields in order. `String(value)` and
-- `Number(value)` throw for an object with a property `toString` of its own: `prints` says where
-- they do not, and each function that converts a value that was not checked asks it first. The stable sort is
-- insertion by the comparator. The state of a component is a record, a handler a function from an
-- event and a state to a state, and the states that it can be in an inductive relation; a handler
-- sees the state that is rendered, since React renders after each event before the next one, and an
-- `await` splits a handler in two events. Everything here terminates by structural recursion; no
-- fuel is used.
--
-- Parameters. JavaScript's numbers are an abstract type with a record of operations (`Runtime`:
-- comparison, arithmetic, conversion from and to text, dates, `JSON.stringify`, change of case), the
-- laws that are needed are the record `IsOrdered` (the order of the finite numbers, `===`, and that
-- a difference is positive when the first is the greater), `IsMaximum` of Shell/Cursor
-- (`Math.max`) and `KeepsFinite` of Finite (which numbers are finite). In Examples, `machine`
-- satisfies the first two, and `nan_machine`, which has a NaN, the third. `fetch` is a function from a request to its
-- response, the calendar of `Intl.DateTimeFormat` one from a date to its text, `localeCompare` a
-- test, of which the canonical text wants that it is transitive.
--
-- Elements. What a component or a view returns is a tree of elements (`Node`) with their attributes; a
-- handler stands for the call that it makes, a disabled control makes none, and the outline of a tree
-- is what matters to its user, in document order. `Rendering` has the operations of the runtime that
-- only the views use (`*`, `Math.min`, `toFixed` with its digits, the calendar).
--
-- Not modelled: the keys and the references that only React reads, the focus of the dialogs, the
-- browser's EventSource itself (its signals are given), a `fetch` that rejects, the environment (the
-- base URL and the switch of the fixture are given), the inline style of the shell, the fixture
-- data, the generated types and the Python service.
pub mod Prelude
pub mod Js
pub mod View
pub mod Fetch
pub mod Format
pub mod EventCopy
pub mod Live
pub mod Api
pub mod Dashboard
pub mod Routes
pub mod Mutation
pub mod Views
pub mod Decision
pub mod Copy
pub mod Components
pub mod Markup
pub mod Screens
pub mod Theme
pub mod Finite
pub mod Shell
pub mod Web
pub mod Examples
