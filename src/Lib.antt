-- ===== src/Lib.antt =====
-- A verification library for Kkori-AI, the voice interviewer: the interview core of the agent, and
-- the report pipeline of the worker.
--
-- The agent (agent/src/interview) asks questions, hears answers and keeps the transcript. The turn
-- pipeline reacts to completed user turns: it commits the answer to the conversation log, asks the
-- orchestrator what to do next, generates a question, has it spoken, and commits it once it was
-- heard. The end of the interview is a state machine that several callers race to advance: the
-- pipeline itself, the interview clock's hard limit, the end signal of the server and the recovery.
--
-- The worker (worker/src) evaluates finished interviews. Two streams bring requests, for a report
-- and for the analysis of its recording; a request is delivered again until it is acknowledged. A
-- handler reads and changes the rows of the report by single statements, calls the model with
-- retries and publishes the new status; a periodic task completes reports whose audio is late.
--
-- Files, and what they model:
--   Prelude, Prelude/*        lists, texts, tests, results, Python's str.strip, integers
--   Interview/Utterance       agent/src/interview/conversation_log.py: enumerations, Utterance
--   Interview/Utterance/Form  the six forms of an utterance, against __post_init__
--   Interview/Log             conversation_log.py: ConversationLog, one function for each method
--   Interview/Log/Append      what an append does to the queries; any number of appends (Grows)
--   Interview/Log/Numbering   the numbers of the questions
--   Interview/Log/Roots       roots, branches, and the judgement on the current root
--   Interview/Log/Succeeds    when an append succeeds
--   Interview/Json            conversation_log.py: the JSON form, rebuild_conversation_log
--   Interview/Json/RoundTrip  reading what was written
--   Interview/PresenceMonitor agent/src/interview/reconnect.py: PresenceMonitor
--   Interview/PresenceMonitor/Window     the reconnect window over any events
--   Interview/Restore         agent/src/interview/restore.py: ResumeMode, _derive_mode
--   Interview/Restore/Phases  the derived phase after an append
--   Interview/Restore/Plan    restore.py: build_restore_plan; session_store.py: RestoreState
--   Interview/Restore/Planned when there is a plan
--   Interview/Context         agent/src/interview/context.py: the estimate, _clip, role messages
--   Interview/EndState        agent/src/interview/end_state.py: EndState.try_advance
--   Interview/EndState/Wins   sequences of attempts to advance
--   Interview/EndSequence     agent/src/interview/end_sequence.py: EndSequence.run and its steps, as
--                             the list of calls that a run makes
--   Interview/EndSequence/Order, Promises   which calls are made, how often and in which order
--   Interview/EndSignal       agent/src/interview/end_signal.py: is_end_signal, EndSignalReceiver
--   Interview/EndSignal/Delivery     which signals are delivered
--   Interview/InterviewClock  agent/src/interview/interview_clock.py: InterviewClock
--   Interview/InterviewClock/Deadlines   elapsed time and deadlines
--   Interview/Orchestrator    agent/src/interview/orchestrator.py: decide
--   Interview/Orchestrator/Contract      what a decision is
--   Interview/TurnPipeline    agent/src/interview/turn_pipeline.py: the state and the pieces that
--                             the methods share (commit, begin_closing, the speech lock)
--   Interview/TurnPipeline/Turns    its methods, cut at their awaits
--   Interview/TurnPipeline/Steps    the event loop: which piece may run in which state
--   Interview/TurnPipeline/Cases    the hook and the transition case by case
--   Interview/TurnPipeline/Sound    the invariant; Sound/* proves it for every piece, and
--                             Sound/Reached is what it says of every reachable state
--   Interview/Tests, EndTests, JsonTests, Runs   concrete data and runs
--
--   Worker/Report             worker/src/report/repository.py, contract/report.py: a report's rows
--   Worker/Repository         repository.py: one function for each statement on the rows
--   Worker/Repository/Rows    what a statement does to a search
--   Worker/Repository/Steps   any sequence of statements; Steps/Rows, Sound, Kept, Unique, Found:
--                             how rows change, what each satisfies, what stays, what is unique,
--                             what a statement on one report says
--   Worker/Group              the dictionary of lists, sorted() and a comprehension that may raise
--   Worker/Group/Partition    what grouping and sorting by a key give
--   Worker/Transcript         contract/transcript.py and repository.py: reading of a transcript
--   Worker/Transcript/Pairs   the numbers of the pairs
--   Worker/Vocabulary, Worker/Evaluator   report/evaluator.py: tags, topics, checks, evaluators
--   Worker/Evaluator/Checked, Topics      what passes the checks, what the topics are
--   Worker/Retry, Worker/Aggregate        report/pipeline.py: with_retry, scores and tags
--   Worker/Retry/Attempts, Counts, Reach   how a retried call ends, and the job that it leaves
--   Worker/Aggregate/Bounds   the means
--   Worker/Generation         report/pipeline.py: process_generation_request
--   Worker/Generation/Reach, Outcomes, Answered, Finishes, Completes   its statements, and how a
--                             run ends on each branch
--   Worker/Audio              report/audio_pipeline.py: process_audio_request; Audio/Saves: a result
--                             is saved
--   Worker/Entry              report/main.py and messaging/claim.py: one message, a grace round
--   Worker/Entry/Served, Acks, Overdue   sequences of messages, acknowledgement, a grace round
--   Worker/Chunking           worker/src/analysis/chunking.py: the chunks of a structured resume
--   Worker/Chunking/Pack, Plain, Covers   cutting of long texts, the two ways, which have chunks
--   Worker/Tests, ChunkTests  concrete data and runs
--
-- How state and operations correspond: a Python object is a record, a method is a function from
-- the record (and what the method reads from outside) to the new record, an exception is a value
-- of `Outcome`, and `None` is `none`. A coroutine that awaits is a value of `Task`; the code from
-- one await to the next is one function, since the event loop runs nothing else in between. The
-- step relation lets any waiting task go on next and any event of the room come next, so it has
-- every order that the event loop can choose, and more: the queue of the speech lock is not kept
-- in order. `asyncio` runs the spawned tasks; `aclose` cancels these, and not the tasks of `main` and
-- the monitor that await a speech, which may be cancelled at any time. The initial question is begun
-- only while the log is empty, which `main` checks without an await in between.
--
-- What comes from outside is an argument: readings of the clocks, the model's answers, generated
-- questions, the outcome of the speech, the presence of a listener, and the fixed texts that
-- random.choice takes. Of these the runs assume that moments are in UTC and that texts to be
-- spoken are not empty. Numbers are naturals or integers without bound as in Python, seconds are
-- whole microseconds, a text is the list of its code points. No function needs fuel.
--
-- In the worker the database is the list of the reports' rows, and a statement is one function on
-- it: `UPDATE ... WHERE` is a map with a count of the rows that it changed, which the source compares
-- with 1. The statements may come in any order and from any number of workers (Repository/Steps);
-- a handler is one function over the database and the published events, as it runs when nothing
-- else changes its report. What comes from outside is an argument: the evaluator with a
-- number for each attempt, the reading of a moment, the tables of the interview, the clock, and
-- the decoding of a message. The database and the publication do not fail. Scores are naturals,
-- means are exact. The rounds of with_retry are the only ones that are counted, by the setting of
-- the source.
--
-- Not modelled: LiveKit, Redis and the model's HTTP calls, logging and metrics, the prompts, the
-- writer of the copy and its owner; in the worker the analysis of recordings, the analysis of resumes
-- but for its chunking, the DDL and the start of the process.
pub mod Prelude
pub mod Interview
pub mod Worker
