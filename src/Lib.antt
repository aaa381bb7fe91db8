-- ===== src/Lib.antt =====
-- A model of the diagnostics engine in src/ (tests, rules, actions and components, with the evaluation
-- of rules, the health of components, and the dependencies that root cause identification walks).
--
-- The parts, and how they interact. The scheduler runs tests when they are due and hands them to the
-- sequencer (src/myrefl_sequence.c). That evaluates the rules fed by a test's result, keeps the
-- statistics of each instance, and passes the change of a rule on to the health of the components that
-- contain it. A failing rule goes to root cause identification (src/myrefl_rci.c), which walks the
-- dependency graph that myrefl_depend_create builds.
--
-- Sequence/Rule models the switch of seq_rule_run and bit_count: `evaluate` takes the rule, the inputs'
-- current results, the result and value that trigger it and the instance's counters, and returns the
-- rule's result with the counters after it. The children of Sequence/Rule say what each operator
-- computes of a whole history of results (`after`, the newest first). Which allocations succeed is the
-- argument `Memory`.
--
-- Sequence/Stats models seq_stats_update with seq_new_history_record and seq_update_history_record:
-- `update_base` for a result of the base instance, `update_member` for one of a member instance, which
-- also updates the base. The clock's reading is an argument; notifications to clients are returned.
--
-- Sequence/Health models seq_comp_health, seq_rule_result_on_health and myrefl_seq_comp_set_health on a
-- store of components. The climb to the parents takes fuel, one for each component on the way: more than
-- the rank of a component in the tree of components is enough.
--
-- Sequence/Sequencer models seq_sequencer: `sequencer` takes the event, the instance, the result and the
-- value. What it calls (the client's functions, seq_rule_run, the statistics, the scheduler and root
-- cause identification) are the operations of `Engine` on a state of its own; a call that goes through a
-- thread does so at once. The depth of its calls to itself is fuel: two for each rule on the way from
-- output to output are enough.
--
-- Rci/Depend models is_obj_in_tree and myrefl_depend_create on the graph of objects, with the loop
-- domains. The depth of the search is fuel, and a rank of the objects, which exists where there is no
-- cycle, bounds it.
--
-- Rci/Map models rci_map_function on that graph and on the objects' instances, `Site`; what root cause
-- identification changes is `World`, with its requests to the scheduler and the sequencer. The depth of
-- calls is fuel, and one for each object and each component around it is enough (`Enough`), since the
-- history grows. Rci/Run models what is mapped, myrefl_rci_run and myrefl_rci_rule_deleted.
--
-- Sched models src/myrefl_sched.c: Sched the queues, the timer and the passes of check_queue_test_times
-- (the rounds take fuel, and one more than the tests that wait is enough), Sched/Requests the requests to
-- add, remove and run tests, recover_schedular and myrefl_sched_init. A queue is the sequence that its
-- list holds, NULL is none; what the scheduler asks of the sequencer, its thread and its timer is
-- returned.
--
-- Thread models the thread pool of src/myrefl_thread.c: `step` is a step of a request
-- (myrefl_thread_request) or of a thread (thread_main), each with one operation on a queue, and `Reached`
-- the pools that any interleaving reaches. A push that gets no element for its queue is a step as well:
-- its job is discarded, or its thread is on no queue any more. The threads of `started` are those that
-- the initialisation has created and queued.
--
-- Util models the linked lists of src/myrefl_util.c on their heap: `Heap` is the elements' fields with the
-- pool of free elements, `Handle` a list with how often its critical section is entered. What calloc
-- returns is an argument. Util/Stores relates a list to the sequence of its values; the loops take fuel,
-- and one more than the elements is enough.
--
-- Api models the part of src/myrefl_api.c by which a client builds and switches what the engine walks.
-- Api/Linking is myrefl_rule_create and myrefl_rule_add_input with rule_input_search on `Links`, the
-- fields of the objects (an object and its rule, test or action are one number); names are looked up
-- before, as `Named`. The walk along a chain of rules takes fuel, and the length of the chain is
-- enough. Api/Linking/Runs joins it to the sequencer. Api/Operands is myrefl_rule_set_type. Api/States
-- is the functions that enable, disable and default tests, actions and rules, on an `Object` with its
-- instances; what they ask of the scheduler is returned. Api/Chaining is myrefl_obj_chain_update_state
-- of src/myrefl_obj.c and myrefl_test_chain_ready on a store of such objects; the depth of calls is
-- fuel, and more than the height of the object in the order of the pointers is enough. Api/Containment
-- is the walk over what a component contains (src/myrefl_obj.c) on the links of containment, where a
-- component and its object are one number and a step leads to an object, to the end or to a read
-- through NULL; its bound on rounds is the source's, and fuel bounds the loops for one type, which
-- have none. Api/Components is the functions that enable and disable a component with all that the
-- walk meets, on the store of Api/Chaining; more fuel than objects is enough.
--
-- Common and Types hold what the parts share, and Tests runs the models on concrete inputs.
--
-- Widths. The target is LP64: long is 64 bits, unsigned int is 32, and its wrap-around is written out
-- (`u32`); a fail_count is compared with a long. Operands of rules are integers, and |op_m| < 2 ^ 34, so
-- that the history's size fits an int. Health and confidence are integers: their sums of severities
-- stay far from the bounds of an int. The number of a list's elements (num_elements, an unsigned int)
-- is taken to stay below 2 ^ 32 and does not wrap.
--
-- Not modelled: the operating system layer, the RPC and command line interfaces and the server around
-- the engine (input and output); the killing of threads, their throttle, the contexts of the
-- sequencer's entry points, the rest of the object database and of the client's calls (creation and
-- deletion of objects, the changes of containment, the defaulting of components, descriptions and
-- flags), myrefl_sched_rule_immediate, destroy_queues and the scheduler's thread. In Rci, Sched and
-- Api/Linking, allocation of list elements is taken to succeed, and the flag of the unit tests is off.
-- What myrefl_obj_delete does after a call that deletes its object is left to the outcome of the call.
pub mod Common
pub mod Types
pub mod Sequence
pub mod Rci
pub mod Util
pub mod Thread
pub mod Api
pub mod Sched
pub mod Tests
