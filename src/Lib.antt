-- ===== src/Lib.antt =====
-- xnode: a tree of nodes that hold values under names or indices, with change callbacks, paths, and
-- JSON and XML at its edges. This library models the parts that a node is made of (the containers, the
-- matching of keys, the search for duplicates, the keys and paths, the values with their time stamps,
-- the lists of change callbacks), the nodes over a store, the functions on them, JSON and XML.
--
-- How the parts fit together. A node keeps its items in a container (src/xcontainer/xcontainer.h): a
-- map, a map that keeps marks of erased entries, or an array. The items are values (XValue) with the
-- time of their last change (XTimed, XValueRT), and the time comes from a sequence that all threads
-- share (Monotonic). A node is addressed by keys (XKey) and lists of them (XPath). Each change that a
-- container is about to make is put to a callback; a node's is XNodeCallbacks::DoCallbacks, which asks
-- the callbacks of the node one after the other and, if one refuses, tells those before it of the
-- rollback. Nodes refer to their children by the values that they hold and to their parent by a weak
-- pointer: the methods that place, move or remove a child change both. The functions of
-- src/xnode/functions only call these methods, and the handlers of JSON and of XML insert what their
-- reader meets.
--
-- The files.
--   Prelude      the library's names, Boolean tests and lists over the native numbers, the integers.
--   Bytes        the order of byte strings, `std::string::compare` and `==`.
--   Container    IContainer of src/xcontainer/xcontainer.h: keys, callbacks, results.
--   Container/Map    src/xcontainer/impl/xcontainer_map.cpp: `std::map` as an association list in the
--                order of its keys. Order: that order. Lookup: what an operation leaves under
--                each key.
--   Container/Erase  src/xcontainer/impl/xcontainer_map_w_erase.cpp, over Container/Map: DetectErase_
--                is a callback that carries the counter. Count, Counted: the counter. Live: what is
--                shown.
--   Container/Array  src/xcontainer/impl/xcontainer_array.cpp: `std::deque` as a list. Each: the changing
--                ForEach. Positions, Writes, Inserts, Visits: the positions that an operation reads,
--                sets, inserts at and shows.
--   Container/Any  a container of any class, and src/xcontainer/factory/xcontainer_factory_impl.cpp.
--   Key, Path    include/xkey and src/xkey: the variant of a key; the parser and the printer of a path.
--                Number, Find, Split: decimal numbers, positions, one split. RoundTrip: the text of a
--                path. Fuel: the length of a text. Ends: the ends of a path.
--   Value        include/xvalue/xvalue.h and src/xvalue/xvalue.cpp: the variant, its classes and
--                comparisons. Make: its constructors. Text: strtoll and its kin. Convert: the
--                conversions, with their ranges and the comparisons as relations.
--   Timed        include/xvalue/xtimed.h; Monotonic: the sequence of include/xvalue/xvalue_rt.h as
--                a step relation over the threads' accesses. Progress: one thread's accesses.
--   Callbacks    src/xnode/impl/xnode_callbacks.cpp. Order: the ids. Run: who is told of a change.
--   Node         src/xnode/xkey_type_match.h and the container that the factory of
--                src/xnode/factory/xnode_factory_impl.cpp gives a node. Match: the keys of a node and
--                of its container, src/xnode/impl/xcontainer_match_impl.cpp. Validator: the search for
--                a child, src/xnode/impl/xparent_validator_impl.cpp.
--   Node/Heap    the store: the fields of XNode (src/xnode/impl/xnode_impl.h) by the node's address, the
--                state of the user's callbacks and the readings of the clock; NodeCreate. Parents:
--                parents and names, and the private methods. Items: At, Set, Insert, Erase, ParentSet.
--                Changes: Clear, ForEach, KeyChange, NameSet. Atomic: Append, Increment,
--                CompareExchange. Bulk, BulkSet, BulkInsert: the methods for many values. All are of
--                src/xnode/impl/xnode_impl.cpp.
--   Node/Forest  what is above a node. Acyclic, Trees: what a method does to it. Calls: the methods as
--                steps. Climb: the loop of IsValidParent_. Adopted: the parent of a child that is set.
--                Placed: the item. View: what the walk of BulkGetAll shows. Named, with Steps,
--                Contract and Fresh: the items of a map as values by their names.
--   Functions    src/xnode/functions: a function takes a store and gives its result with the store that
--                it leaves, or none where it does not end. Get (insert_get.cpp), Paths (path.cpp), Build
--                (create.cpp, clone.cpp), Compare and Merge (compare.cpp), Improper (improper.cpp).
--                Follow, AtEnd: a path whose nodes are there. Results: what results have in common.
--                Same: a node that is compared with itself.
--   Json         src/xnode/json/xnode_json.cpp: the handler's events and those of the writer. Nested: the
--                form of the written events. Balance: the handler's stack.
--   XmlDoc       src/xnode/xml/xml_creator.cpp: the document that a node is written as, by its parts, and
--                ToXml of src/xnode/xml/xnode_xml.cpp. RoundTrip: the document read back.
--   Sax          src/xnode/xml/sax_handler.cpp: the fields of XNodeSaxHandler, PutValue_ and what it calls.
--                Arrays: StartArray_, EndArray_, ConvertToArray_ and theirs. Handler: the events, PutNode_,
--                EndNode_, and FromXml of src/xnode/xml/xnode_xml.cpp. Stacks, Balance: the handler's
--                stacks. Ends: the loop of GetLastAndNewKeys_. Attributes: the attributes of an element.
--   Tests        runs of the models, and each theorem at a concrete input.
--
-- How code becomes definitions. A method that changes its object takes the object and returns it with
-- its result. What a callback captures and changes is a state that is passed through the operation; a
-- callback that may be null is an option. An iterator is the list that has been passed and the rest.
-- An overload for a moved argument is the same definition. size_t and uint64_t are numbers with `%` a
-- power of two where the code may wrap, int64_t and int32_t are integers that are cut where the code
-- casts. Floating point is a parameter (Double), as are what `atoi` gives out of range, the clock's
-- reading, the mark of an erased entry, which reads the clock, and `xbase::NextUid`.
--
-- Fuel. The loop and the recursion of the path's parser run on the length of the text, of which each
-- call takes off at least one byte. The loop that lets an array grow runs max_size_increase rounds,
-- since the array may not grow further. `decimal` runs on one more than the number it prints. The
-- loops that climb the parents run on `depth`: where the new parent has as many nodes above it,
-- itself included, that is enough. The loop of NodeGetByKey tries again as long as an exchange is
-- refused, and the functions that descend follow the nodes' values, which may lead back: both run on
-- `rounds`, and a result says that they ended. The loop of GetLastAndNewKeys_ runs on `rounds`, too; in
-- a map, more than there are keys are enough.
--
-- Not modelled. The tokenizers, the printers, the document builder and the transcoder behind JSON and
-- XML are other projects: their events, and what they write of a document, are parameters. A call of
-- the XML handler that the code leaves undefined, or that throws, has no result. Locks are not modelled: an operation of a container, of the callbacks or of a node is
-- one step, and so is a loop of a function over a node's items. The destruction of nodes is not
-- modelled, nor a user's callback that changes nodes. Where the sum of Increment overflows, which
-- the source leaves undefined, the model wraps around. The holder that keeps the text of a key alive
-- is not part of a key's value, and the conversions between ticks and milliseconds are floating
-- point.
pub mod Prelude
pub mod Bytes
pub mod Container
pub mod Key
pub mod Path
pub mod Value
pub mod Timed
pub mod Callbacks
pub mod Node
pub mod Functions
pub mod Json
pub mod XmlDoc
pub mod Sax
pub mod Tests
