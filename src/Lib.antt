-- ===== src/Lib.antt =====
-- A model of libgrilio, a library that speaks to a radio interface layer (rild): a channel takes
-- requests from its clients, queues them, hands them to a transport one by one, matches the
-- responses with them, retries and expires them; the transport cuts a byte stream into packets; an
-- encoder writes payloads, and a parser reads them.
--
-- Files, and what they are about in the repository:
--   Base           Boolean tests, lists over the native numbers, tables, integers, automation
--   Wire           src/grilio_p.h: words as bytes, GUINT32_TO_RIL and GUINT32_FROM_RIL
--   Encode         src/grilio_encode.c: grilio_encode_byte, _bytes, _int32, _uint32_values
--   Encode/Text      grilio_encode_utf8_chars, _utf8, _format
--   Parser         src/grilio_parser.c: words, arrays and nested data
--   Parser/Text      grilio_parser_get_nullable_utf8, _skip_string, _split_utf8
--   Parser/Text/*    bounds of strings, skipping against reading
--   Payload        the encoder against the parser
--   Request        src/grilio_p.h struct grilio_request, src/grilio_request.c
--   Request/Append   filling in a payload, array requests
--   Request/Arrays   array requests against the parser
--   Request/Strings  the same for strings
--   Request/Contents what a payload is made of
--   Channel        src/grilio_channel.c
--     State          struct grilio_channel_priv, signals, reference counts of requests
--     Ids, Log       grilio_channel_generate_id; the loggers
--     Timers         the pending timer and the deadline timer
--     Send, Write    the send queue, grilio_channel_dequeue_request, grilio_channel_schedule_write
--     Retry          the retry queue, grilio_channel_pending_timeout, grilio_channel_timeout
--     Response       the handlers of the transport's signals, injected events
--     Transaction    grilio_channel_transaction_start, _state, _finish
--     Api            sending, cancelling, retrying, serialization, settings
--     Cancel         grilio_channel_cancel_all, the end of a channel's life
--     Cancel/*       what is left of the tables and lists after it
--     Frame, Policy, Drain
--                    what a write leaves alone, what is sent next, the loop of a write
--     Ownership, Delivery, Order, Deadlines
--                    transactions, responses and the table, the retry queue, the deadline timer
--     Life           a channel over its life, a sequence of handlers and calls
--     Life/*         the lists and the table by themselves and what changes them; writes, answers, timeouts,
--                    calls and queues; a history of calls; cancelling while sending
--     Loggers, Injects
--                    adding and removing loggers, the order of injected events
--     Signals        the handlers of the signals, by code of an event
--   Queue          src/grilio_queue.c: sending, cancelling and transactions by queue, references
--     Links          the pointers of a queue
--     Chain, Removal the chain that the pointers are, adding to it and taking from it
--     Shrinking, Emptied, Freed
--                    what writes and cancellations do to a queue, the end of a queue
--   Hexdump        src/grilio_hexdump.c: the default logger
--     Line, Shown, Dump
--                    the text of a row, the rows of a packet
--   Transport      src/grilio_transport.c: names, and the calls that a derived class answers
--     Signals        the signals of a transport and their handlers
--   Socket         src/grilio_transport_socket.c
--     State, Read    errors and shutdown, grilio_transport_socket_read_callback
--     Write          grilio_transport_socket_write, the write callback, handing a request over
--     Write/*        what is still to be written, and that it is written in the end
--     Stream         a decoder that takes the stream byte by byte, and the reader against it
--     Stream/Packets, Stream/Messages
--                    the packets of the messages, and what is signalled for them
--     Life           grilio_transport_socket_new, finalization, and any sequence of calls
--   Wiring         grilio_channel_new: the signals of the transport and the handlers of the channel
--   Examples       the theorems at concrete channels, payloads and streams
--
-- A pointer to a request or to a queue is a number, and the channel's `reqs` and `queues` are the
-- store that it points into, so lists and tables alias a request as they do in C. A chain through
-- `next` or `qnext` is the list of its members. A function that changes an object takes the old state
-- and returns the new one; what goes out of the component (signals, callbacks, requests handed over)
-- is recorded in the field `out`. A callback that calls back into the library is not run inside the
-- call that makes it: its calls are further steps. A handler reads the clock once.
--
-- GLib's hash tables are association lists from numbers with one entry for a key, in any order; its
-- sources are the time at which they are due. GLib's conversions of texts, G_ALIGN4 of libglibutil
-- and g_strsplit are parameters, as are what the transport answers when it is handed a request and
-- how much a socket takes of a write. The words of a packet are taken to be little endian; in C they
-- have the byte order of the machine.
--
-- Numbers are natural numbers; a guint wraps at 2 ^ 32 where the code lets it (ids, padded lengths,
-- the version, the size of an array request). An int that can be negative is an integer (timeouts,
-- retry limits, statuses). Times are 64-bit in C and unbounded here, and so are reference counts and
-- counts of retries.
--
-- These loops run on fuel. The search for an id has two rounds more than the table has entries, and
-- each passes an id in use or 0. The loop of a write has one round more than there are requests
-- queued, and each takes a request off the queue. The main loop that calls the read callback has as
-- many rounds as there are bytes, since each call takes one at least, and so it is with the write
-- callback and a socket that takes a byte of each write at least, but for one more round. The walk
-- along a queue has as many rounds as its chain is long. Cancelling a queue has as many rounds as it
-- has requests, and each takes the first one off. The rows of a dump have two rounds more than there
-- are bytes of data, and each but the first takes a byte.
--
-- GObject's signals are an interface (Base.Signals): what connecting, emitting and disconnecting do is
-- a hypothesis, and so is what the C library says of "%x".
--
-- Not modelled: the registration of the default logger, the GObject classes and their reference counts,
-- and connecting a socket to a path, which are calls of GLib and of the system. Assertions and debug output are left out, and the name of a channel, which is its
-- transport's.
pub mod Base
pub mod Wire
pub mod Encode
pub mod Parser
pub mod Payload
pub mod Request
pub mod Channel
pub mod Queue
pub mod Hexdump
pub mod Transport
pub mod Socket
pub mod Wiring
pub mod Examples
